-- ===== src/Sessions/Signalling.antt =====
-- What an admitted signal is known to be, and that no message is admitted twice.
use dshker_server.Prelude.{
  Result-cases, String, arith, bind_ok, false, get, inl, inr, leb, ok, put, reject_ok, signal_limit,
  some, str_iff, true, true_ne_false, ℕ, ◌+◌, ◌<◌, ◌||◌, ◌≡◌, ◌≤◌,
}
use dshker_server.Protocol.Ids.{Bytes, minute, unix}
use dshker_server.Protocol.Leases.{SignalScope}
use dshker_server.Protocol.Service.{Service}
use dshker_server.Protocol.Signals.{Codec, Signal, signal_fields, verify_signal}
use dshker_server.Sessions.{Attempt, Sessions, authorize}
use dshker_server.Sessions.Admission.{
  admit, admit_sdp, admitted, count_message, count_of, max_messages, mem, other_end, scope_of,
}
use dshker_server.Sessions.Checks.{authorize-get}
use dshker_server.Store.Pairing.{Device, device}
use dshker_server.Store.Schema.{Db}

-- The checks that an admitted signal has passed, and the attempt that it leaves.
pub record Passed (service : Service) (codec : Codec) (s : Sessions) (db : Db) (sender : String)
    (signal : Signal) (now : ℕ) (a : Attempt) : Type 0 where
  pub current : Attempt
  pub sending : Device
  pub described : Attempt
  pub allowed : authorize s db sender signal.pair_id signal.attempt_id now ≡ ok current
  pub known : device db sender ≡ ok sending
  pub verified :
      verify_signal codec service signal sending.public_key (scope_of current sender signal) now
      ≡ ok tt
  pub is_new : mem signal.message_id current.message_ids ≡ false
  pub few : leb max_messages current.message_count ≡ false
  pub fits : admit_sdp service codec current sender signal ≡ ok described
  pub left : a ≡ count_message sender signal described

module _ (service : Service) (codec : Codec) where
  pub admitted-Passed :
      (s : Sessions) (db : Db) (sender : String) (signal : Signal) (now : ℕ) {a : Attempt}
      → admitted service codec s db sender signal now ≡ ok a
      → Passed service codec s db sender signal now a
  unfolding admitted
  admitted-Passed s db sender signal now {a} h =
      let (current, there, h₁) =
        bind_ok (authorize s db sender signal.pair_id signal.attempt_id now) _ h in
      let (d, known, h₂) = bind_ok (device db sender) _ h₁ in
      let (_, verified, h₃) =
        bind_ok
          (verify_signal codec service signal d.public_key (scope_of current sender signal) now) _
          h₂ in
      let (fresh, h₄) =
        reject_ok
          (mem signal.message_id current.message_ids || leb max_messages current.message_count)
          signal_limit _ h₃ in
      let (described, e, h₅) = bind_ok (admit_sdp service codec current sender signal) _ h₄ in
      record {
        current = current;
        sending = d;
        described = described;
        allowed = there;
        known = known;
        verified = verified;
        is_new = ground arith;
        few = ground arith;
        fits = e;
        left = ground arith;
      }

  -- A call that succeeds has put an admitted attempt in the signal's entry.
  pub admit_ok :
      (sender : String) (signal : Signal) (now : ℕ) (db : Db) (s : Sessions)
      → (admit service codec sender signal now db s).0 ≡ ok tt
      → (a : Attempt) × (admitted service codec s db sender signal now ≡ ok a)
        × ((admit service codec sender signal now db s).1
            ≡ record s { attempts = put signal.pair_id a s.attempts })
  unfolding admit
  admit_ok sender signal now db s h =
      elim (Result-cases (admitted service codec s db sender signal now)) [
        | inl (c, e) ↦ ground arith
        | inr (a, e) ↦ (a, e, rw (e, admit))
      ]

  -- What `Signal.Verify` has checked of the signal.
  verify_signal_facts :
      (signal : Signal) (key : Bytes) (scope : SignalScope) (now : ℕ)
      → verify_signal codec service signal key scope now ≡ ok tt
      → (service.verify key (signal_fields signal) signal.signature ≡ true)
        × (signal.from_device_id ≡ scope.from_device_id)
        × (signal.to_device_id ≡ scope.to_device_id)
        × (signal.sequence ≡ scope.next_sequence)
        × (unix now < signal.expires_at)
        × (signal.expires_at ≤ unix (now + minute))
  unfolding verify_signal
  verify_signal_facts signal key scope now h = ground (
    arith,
    str_iff signal.from_device_id scope.from_device_id,
    str_iff signal.to_device_id scope.to_device_id,
  )

  -- An admitted signal carries the sender's signature over all its fields, is addressed from the
  -- sender to the other end of the attempt's lease, has the number after the sender's last one,
  -- and has not expired nor lasts longer than a minute.
  pub admit-authentic :
      (sender : String) (signal : Signal) (now : ℕ) (db : Db) (s : Sessions)
      → (admit service codec sender signal now db s).0 ≡ ok tt
      → (current : Attempt) × (d : Device) × (get signal.pair_id s.attempts ≡ some current)
        × (device db sender ≡ ok d)
        × (service.verify d.public_key (signal_fields signal) signal.signature ≡ true)
        × (signal.from_device_id ≡ sender)
        × (signal.to_device_id ≡ other_end sender current.lease)
        × (signal.sequence ≡ count_of sender current.sequence + 1)
        × (unix now < signal.expires_at)
        × (signal.expires_at ≤ unix (now + minute))
  admit-authentic sender signal now db s h =
      let (a, e, _) = admit_ok sender signal now db s h in
      let p = admitted-Passed s db sender signal now e in
      let (signed, from, to, next, lasts, short) =
        verify_signal_facts signal p.sending.public_key (scope_of p.current sender signal) now
          p.verified in
      (
        p.current,
        p.sending,
        authorize-get s db sender signal.pair_id signal.attempt_id now p.allowed,
        p.known,
        signed,
        from,
        to,
        next,
        lasts,
        short,
      )

  -- The messages that an attempt remembers after a signal.
  admit_sdp-messages :
      (current : Attempt) (sender : String) (signal : Signal) {a : Attempt}
      → admit_sdp service codec current sender signal ≡ ok a
      → a.message_ids ≡ current.message_ids
  unfolding admit_sdp
  admit_sdp-messages current sender signal h = ground arith

  -- What stands in the entry that was put.
  put-get :
      (s t : Sessions) (k j : String) (a : Attempt) {b : Attempt}
      → t ≡ record s { attempts = put k a s.attempts }
      → j ≡ k
      → get j t.attempts ≡ some b
      → a ≡ b
  put-get s t k j a {b} e same h = ground (arith, str_iff k j)

  counted_message :
      (sender : String) (signal : Signal) (a : Attempt) {id : String}
      → id ≡ signal.message_id
      → mem id (count_message sender signal a).message_ids ≡ true
  counted_message sender signal a {id} h = ground (arith, str_iff signal.message_id id)

  -- Once a signal is admitted, no signal of its pair with its message id is admitted by the
  -- sessions that it leaves: from no sender, at no time, over no tables, for no other content.
  pub admit-once :
      (sender again : String) (signal other : Signal) (now later : ℕ) (db db' : Db) (s : Sessions)
      → (admit service codec sender signal now db s).0 ≡ ok tt
      → other.pair_id ≡ signal.pair_id
      → other.message_id ≡ signal.message_id
      → ¬ (
          (admit service codec again other later db'
            (admit service codec sender signal now db s).1).0
          ≡ ok tt)
  admit-once sender again signal other now later db db' s h pair id h' =
      let t = (admit service codec sender signal now db s).1 in
      let (a, e, left) = admit_ok sender signal now db s h in
      let (b, f, _) = admit_ok again other later db' t h' in
      let p = admitted-Passed s db sender signal now e in
      let q = admitted-Passed t db' again other later f in
      let there = authorize-get t db' again other.pair_id other.attempt_id later q.allowed in
      let same : a ≡ q.current = put-get s t signal.pair_id other.pair_id a left pair there in
      true_ne_false (rw (← same, p.left) (counted_message sender signal p.described id)) q.is_new
