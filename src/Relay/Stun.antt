-- ===== src/Relay/Stun.antt =====
-- internal/coordinator/stun.go, `ServeSTUN` and `stunResponse`: the socket that answers Bindings.
pub mod Replies
pub mod Rate
use dshker_server.Prelude.{
  Bool, List, Option, Result, String, [], err, false, if◌then◌else◌, invalid_stun_binding, length,
  ltb, not, ok, or_fail, reject, stun_error, suc, true, zero, ℕ, ◌&&◌, ◌+◌, ◌==◌, ◌>>=◌, ◌>>◌, ◌||◌,
  ◌∷◌,
}
use dshker_server.Protocol.Ids.{Bytes}
use dshker_server.Relay.Limiter.{Limiter, allow}

-- The address of a datagram: the text of its IP, and its port.
pub record Source : Type 0 where
  pub ip : String
  pub port : ℕ

-- What pion/stun decodes: whether the type is that of a Binding request, and the header's length.
pub record Message : Type 0 where
  pub is_binding_request : Bool
  pub length : ℕ

-- pion/stun: `Decode` of the bytes, and `Build` of the answer to them with the reflexive address.
pub record StunLibrary : Type 0 where
  pub decode_message : Bytes → Option Message
  pub build_success : Bytes → Source → Option Bytes

-- What `ReadFromUDP` returns: a datagram and its source, or an error.
pub data Read : Type 0 where
  packet : Bytes → Source → Read
  broken : Read

-- A turn of the loop: the time, what is read, and, where it comes to that, whether the context has
-- ended and whether the answer is written.
pub record Turn : Type 0 where
  pub now : ℕ
  pub read : Read
  pub ended : Bool
  pub written : Bool

-- How the loop stands after the turns: it reads on, or has returned.
pub data Ending : Type 0 where
  reads_on stopped read_failed write_failed : Ending

abbrev pub Reply : Type 0
Reply = Source × Bytes

-- The bytes that fit a buffer.
abbrev pub take {ℓ} : {A : Type ℓ} → ℕ → List A → List A
take zero xs = []
take (suc n) [] = []
take (suc n) (x ∷ xs) = x ∷ take n xs

abbrev pub buffer_size : ℕ
buffer_size = 1025

abbrev pub bad_size : Bytes → Bool
bad_size bytes = ltb (length bytes) 20 || ltb 1024 (length bytes)

-- The test of a datagram; the budgets are asked only where its size is right.
unfoldable pub passes : Bytes → Source → ℕ → Limiter → Bool × Limiter
passes bytes source now budget =
    if bad_size bytes then (false, budget) else allow source.ip now budget

-- `message.Type != stun.BindingRequest || int(message.Length)+20 != len(data)`
abbrev pub is_binding : Bytes → Message → Bool
is_binding bytes message = message.is_binding_request && message.length + 20 == length bytes

module _ (lib : StunLibrary) where
  unfoldable pub stun_response : Bytes → Source → Result Bytes
  stun_response bytes source = do
    message ← or_fail (lib.decode_message bytes) invalid_stun_binding
    reject (not (is_binding bytes message)) invalid_stun_binding
    or_fail (lib.build_success bytes source) stun_error

  -- The end of a turn: no answer, an answer, or an answer that cannot be written.
  abbrev pub replied : Result Bytes → Bool → Source → Ending × List Reply → Ending × List Reply
  replied (err _) written source rest = rest
  replied (ok response) true source rest = (rest.0, (source, response) ∷ rest.1)
  replied (ok response) false source rest = (write_failed, [])

  -- One turn, with the turns after it as a function of the budgets.
  abbrev pub serve_turn :
      Turn → Read → (Limiter → Ending × List Reply) → Limiter → Ending × List Reply
  serve_turn turn broken next budget = (if turn.ended then stopped else read_failed, [])
  serve_turn turn (packet sent source) next budget =
      let bytes = take buffer_size sent in
      let test = passes bytes source turn.now budget in
      let rest = next test.1 in
      if test.0 then replied (stun_response bytes source) turn.written source rest else rest

  -- How the loop stands, and what it has answered.
  unfoldable pub serve_stun : List Turn → Limiter → Ending × List Reply
  serve_stun [] budget = (reads_on, [])
  serve_stun (turn ∷ turns) budget = serve_turn turn turn.read (serve_stun turns) budget
