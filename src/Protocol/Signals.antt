-- ===== src/Protocol/Signals.antt =====
-- internal/protocol/signal.go: signed signalling messages.
use Prim.Native.String.{len}
use dshker_server.Prelude.{
  Bool, List, Option, Result, String, [], all, err, false, identity_mismatch, if◌then◌else◌,
  invalid_candidate, invalid_payload, invalid_sdp, leb, ltb, not, ok, or_fail, protocol_limit,
  protocol_mismatch, reject, signal_expired, signal_scope_mismatch, true, ℕ, ◌&&◌, ◌+◌, ◌==◌, ◌=s=◌,
  ◌>>=◌, ◌>>◌, ◌||◌, ◌∷◌,
}
use dshker_server.Prelude.Text.{codes}
use dshker_server.Protocol.Ids.{Bytes, minute, unix, valid_id}
use dshker_server.Protocol.Json.{Token, decode}
use dshker_server.Protocol.Leases.{SignalScope}
use dshker_server.Protocol.Service.{Scalar, Service, num, text}

pub record Signal : Type 0 where
  pub version : ℕ
  pub kind : String
  pub message_id : String
  pub attempt_id : String
  pub generation : ℕ
  pub from_device_id : String
  pub to_device_id : String
  pub pair_id : String
  pub sequence : ℕ
  pub expires_at : ℕ
  pub payload : String
  pub signature : String

pub record Candidate : Type 0 where
  pub sdp_hash : String
  pub candidate : String
  pub mid : String
  pub line : ℕ

-- What encoding/base64 and encoding/json make of a payload: base64url, the tokens of its JSON, the
-- keys of a top-level object, and the value of each of two types that a decoder which allows no
-- unknown field gives.
pub record Codec : Type 0 where
  pub decode_base64 : String → Option Bytes
  pub tokens : Bytes → List Token
  pub fields : Bytes → Option (List String)
  pub parse_sdp : Bytes → Option String
  pub parse_candidate : Bytes → Option Candidate

-- `Decode` into `SDP` and into `Candidate`.
abbrev pub decode_sdp : Codec → Bytes → Result String
decode_sdp codec = decode codec.tokens codec.parse_sdp codec.fields ("sdp" ∷ [])

abbrev pub decode_candidate : Codec → Bytes → Result Candidate
decode_candidate codec =
    decode codec.tokens codec.parse_candidate codec.fields
      ("sdpHash" ∷ "candidate" ∷ "mid" ∷ "line" ∷ [])

-- `Signal.SigningBytes`
unfoldable pub signal_fields : Signal → List Scalar
signal_fields s =
    text "dshker.signal.v1"
    ∷ num s.version
    ∷ text s.kind
    ∷ text s.message_id
    ∷ text s.attempt_id
    ∷ num s.generation
    ∷ text s.from_device_id
    ∷ text s.to_device_id
    ∷ text s.pair_id
    ∷ num s.sequence
    ∷ num s.expires_at
    ∷ text s.payload
    ∷ []

-- The types that the code tells apart.
pub data SignalKind : Type 0 where
  offer answer candidate end_of_candidates unknown : SignalKind

unfoldable pub signal_kind : String → SignalKind
signal_kind kind =
    if kind =s= "offer"
    then offer
    else if kind =s= "answer"
    then answer
    else if kind =s= "candidate"
    then candidate
    else if kind =s= "end-of-candidates"
    then end_of_candidates
    else unknown

-- Larger integers are not exact in JavaScript.
abbrev pub max_exact : ℕ
max_exact = 9_007_199_254_740_991

-- A digit that `hex.DecodeString` takes.
is_hex_digit : ℕ → Bool
is_hex_digit c =
    (leb b'0' c && leb c b'9') || (leb b'a' c && leb c b'f') || (leb b'A' c && leb c b'F')

unfoldable pub candidate_fits : Candidate → Bool
unfolding is_hex_digit
candidate_fits c =
    len c.sdp_hash == 64
    && leb (len c.candidate) 2048
    && leb (len c.mid) 64
    && all is_hex_digit (codes c.sdp_hash)

abbrev pub sdp_fits : Result String → Bool
sdp_fits (err _) = false
sdp_fits (ok sdp) = ltb 0 (len sdp) && leb (len sdp) 32768

-- Only a `candidate` carries a candidate.
abbrev pub candidate_ok : Bool → Result Candidate → Bool
candidate_ok carries (err _) = false
candidate_ok true (ok c) = candidate_fits c && not (c.candidate =s= "")
candidate_ok false (ok c) = candidate_fits c && c.candidate =s= ""

module _ (codec : Codec) where
  abbrev pub validate_body : SignalKind → Bytes → Result (Unit {0})
  validate_body offer body = reject (not (sdp_fits (decode_sdp codec body))) invalid_sdp
  validate_body answer body = reject (not (sdp_fits (decode_sdp codec body))) invalid_sdp
  validate_body candidate body =
      reject (not (candidate_ok true (decode_candidate codec body))) invalid_candidate
  validate_body end_of_candidates body =
      reject (not (candidate_ok false (decode_candidate codec body))) invalid_candidate
  validate_body unknown body = err protocol_mismatch

  unfoldable pub validate_payload : Signal → Result (Unit {0})
  validate_payload s = do
    reject (ltb 49152 (len s.payload)) protocol_limit
    body ← or_fail (codec.decode_base64 s.payload) invalid_payload
    validate_body (signal_kind s.kind) body

  abbrev pub signal_shape : Signal → Bool
  signal_shape s =
      s.version == 1
      && not (s.generation == 0)
      && leb s.generation max_exact
      && not (s.sequence == 0)
      && leb s.sequence max_exact
      && valid_id s.message_id

  abbrev pub signal_in_scope : Signal → SignalScope → Bool
  signal_in_scope s scope =
      valid_id s.attempt_id
      && valid_id s.from_device_id
      && valid_id s.to_device_id
      && valid_id s.pair_id
      && not (s.from_device_id =s= s.to_device_id)
      && s.attempt_id =s= scope.attempt_id
      && s.from_device_id =s= scope.from_device_id
      && s.to_device_id =s= scope.to_device_id
      && s.pair_id =s= scope.pair_id
      && s.generation == scope.generation
      && s.sequence == scope.next_sequence

  -- `Signal.Verify`
  unfoldable pub verify_signal : Service → Signal → Bytes → SignalScope → ℕ → Result (Unit {0})
  verify_signal service s key scope now = do
    reject (not (signal_shape s)) protocol_mismatch
    reject (not (signal_in_scope s scope)) signal_scope_mismatch
    reject (leb s.expires_at (unix now) || ltb (unix (now + minute)) s.expires_at) signal_expired
    validate_payload s
    reject (not (service.verify key (signal_fields s) s.signature)) identity_mismatch
