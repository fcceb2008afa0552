-- ===== src/Sessions/Admission.antt =====
-- internal/coordinator/sessions.go: which signals an attempt lets through.
use dshker_server.Prelude.{
  Bool, List, Map, Result, String, any, err, false, get, if◌then◌else◌, invalid_payload, leb, none,
  not, ok, or_fail, put, reject, sdp_binding_mismatch, signal_limit, signal_state_conflict, some,
  true, ℕ, ◌&&◌, ◌+◌, ◌=s=◌, ◌>>=◌, ◌>>◌, ◌||◌, ◌∷◌,
}
use dshker_server.Protocol.Ids.{Bytes}
use dshker_server.Protocol.Leases.{Lease, SignalScope}
use dshker_server.Protocol.Service.{Service}
use dshker_server.Protocol.Signals.{
  Codec, Signal, SignalKind, answer, candidate, decode_candidate, decode_sdp, end_of_candidates,
  offer, signal_kind, unknown, verify_signal,
}
use dshker_server.Sessions.{Act, Attempt, Sessions, authorize}
use dshker_server.Store.Pairing.{device}
use dshker_server.Store.Schema.{Db}

-- An entry of `sequence` or `sdpHash`; a missing one is the zero value.
abbrev pub count_of : String → Map ℕ → ℕ
count_of k m = elim (get k m) [ none ↦ 0 | some n ↦ n ]

abbrev pub hash_of : String → Map String → String
hash_of k m = elim (get k m) [ none ↦ "" | some h ↦ h ]

-- The other end of the link.
abbrev pub other_end : String → Lease → String
other_end sender l = if l.to_device_id =s= sender then l.from_device_id else l.to_device_id

abbrev pub mem : String → List String → Bool
mem x = any (λ y. y =s= x)

-- What `Admit` expects of the signal.
abbrev pub scope_of : Attempt → String → Signal → SignalScope
scope_of current sender signal = record {
  attempt_id = current.lease.attempt_id;
  from_device_id = sender;
  to_device_id = other_end sender current.lease;
  pair_id = signal.pair_id;
  generation = current.lease.generation;
  next_sequence = count_of sender current.sequence + 1;
}

abbrev pub max_messages : ℕ
max_messages = 512

abbrev pub count_message : String → Signal → Attempt → Attempt
count_message sender signal a = record a {
  sequence = put sender signal.sequence a.sequence;
  message_ids = signal.message_id ∷ a.message_ids;
  message_count = a.message_count + 1;
}

module _ (service : Service) (codec : Codec) where
  -- An offer is the initiator's and an answer the other's, one each, the answer after the offer.
  abbrev pub description_fits : Bool → Attempt → String → Bool
  description_fits is_offer current sender =
      let from = current.lease.from_device_id in
      hash_of sender current.sdp_hash =s= ""
      && (if is_offer
          then sender =s= from
          else (not (sender =s= from) && not (hash_of from current.sdp_hash =s= "")))

  abbrev pub admit_description : Bool → Attempt → String → Bytes → Result Attempt
  admit_description is_offer current sender body = do
    reject (not (description_fits is_offer current sender)) signal_state_conflict
    sdp ← decode_sdp codec body
    ok (record current { sdp_hash = put sender (service.digest sdp) current.sdp_hash })

  -- A candidate names the description that its sender has sent.
  abbrev pub admit_candidate : Attempt → String → Bytes → Result Attempt
  admit_candidate current sender body = do
    c ← decode_candidate codec body
    reject
        (hash_of sender current.sdp_hash =s= ""
          || not (hash_of sender current.sdp_hash =s= c.sdp_hash))
        sdp_binding_mismatch
    ok current

  abbrev pub admit_kind : SignalKind → Attempt → String → Bytes → Result Attempt
  admit_kind offer current sender body = admit_description true current sender body
  admit_kind answer current sender body = admit_description false current sender body
  admit_kind candidate current sender body = admit_candidate current sender body
  admit_kind end_of_candidates current sender body = admit_candidate current sender body
  admit_kind unknown current sender body = admit_candidate current sender body

  -- `admitSDP`
  unfoldable pub admit_sdp : Attempt → String → Signal → Result Attempt
  admit_sdp current sender signal = do
    body ← or_fail (codec.decode_base64 signal.payload) invalid_payload
    admit_kind (signal_kind signal.kind) current sender body

  -- The attempt after the signal.
  unfoldable pub admitted : Sessions → Db → String → Signal → ℕ → Result Attempt
  admitted s db sender signal now = do
    current ← authorize s db sender signal.pair_id signal.attempt_id now
    d ← device db sender
    verify_signal codec service signal d.public_key (scope_of current sender signal) now
    reject (mem signal.message_id current.message_ids || leb max_messages current.message_count)
        signal_limit
    described ← admit_sdp current sender signal
    ok (count_message sender signal described)

  -- `Admit`
  unfoldable pub admit : String → Signal → ℕ → Db → Sessions → Act Sessions (Unit {0})
  admit sender signal now db s = elim (admitted s db sender signal now) [
    | err c ↦ (err c, s)
    | ok a ↦ (ok tt, record s { attempts = put signal.pair_id a s.attempts })
  ]
