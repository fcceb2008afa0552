-- ===== src/Relay/Stun/Replies.antt =====
-- internal/coordinator/stun.go: what `ServeSTUN` answers.
use dshker_server.Prelude.{
  Bool, Bool-cases, List, Result, [], ap, arith, bind_ok, err, false, inl, inr,
  invalid_stun_binding, length, not, ok, or_fail, refl, reject_ok, some, suc, sym, true, zero, ℕ,
  ◌+◌, ◌<◌, ◌∙◌, ◌∷◌, ◌≡◌, ◌≤◌,
}
use dshker_server.Protocol.Ids.{Bytes}
use dshker_server.Relay.Limiter.{Limiter}
use dshker_server.Relay.Stun.{
  Ending, Message, Read, Reply, Source, StunLibrary, Turn, bad_size, broken, buffer_size,
  is_binding, packet, passes, replied, serve_stun, serve_turn, stun_response, take,
}

-- The Binding request that a reply answers.
pub record IsAnswered (lib : StunLibrary) (turn : Turn) (reply : Reply) : Type 0 where
  pub sent : Bytes
  pub message : Message
  pub read : turn.read ≡ packet sent reply.0
  pub least : 20 ≤ length sent
  pub most : length sent ≤ 1024
  pub decoded : lib.decode_message sent ≡ some message
  pub binding : message.is_binding_request ≡ true
  pub whole : message.length + 20 ≡ length sent
  pub built : lib.build_success sent reply.0 ≡ some reply.1

-- The replies to some of the turns, in their order, each turn answered once at most.
pub data Replies (lib : StunLibrary) : List Turn → List Reply → Type 0 where
  ends : {turns : List Turn} → Replies lib turns []
  silent :
      {turn : Turn} {turns : List Turn} {replies : List Reply}
      → Replies lib turns replies
      → Replies lib (turn ∷ turns) replies
  answers :
      {turn : Turn} {turns : List Turn} {reply : Reply} {replies : List Reply}
      → IsAnswered lib turn reply
      → Replies lib turns replies
      → Replies lib (turn ∷ turns) (reply ∷ replies)

-- What fits with room to spare has been taken whole.
take-all {ℓ} : {A : Type ℓ} (n : ℕ) (xs : List A) → length (take n xs) < n → take n xs ≡ xs
take-all zero xs h = absurd (omega arith)
take-all (suc n) [] h = refl
take-all (suc n) (x ∷ xs) h = ground (arith, take-all n xs)

passes_size :
    (bytes : Bytes) (source : Source) (now : ℕ) (budget : Limiter)
    → (passes bytes source now budget).0 ≡ true
    → (20 ≤ length bytes) × (length bytes ≤ 1024)
unfolding passes
passes_size bytes source now budget h = elim (Bool-cases (bad_size bytes)) [
  | inl e ↦ absurd (ground arith)
  | inr e ↦ (ground arith, ground arith)
]

module _ (lib : StunLibrary) where
  stun_response_ok :
      (turn : Turn) (bytes : Bytes) (source : Source) (response : Bytes)
      → turn.read ≡ packet bytes source
      → 20 ≤ length bytes
      → length bytes ≤ 1024
      → stun_response lib bytes source ≡ ok response
      → IsAnswered lib turn (source, response)
  unfolding stun_response
  stun_response_ok turn bytes source response read least most h =
      let (message, decoded, h₁) =
        bind_ok (or_fail (lib.decode_message bytes) invalid_stun_binding) _ h in
      let (binding, h₂) = reject_ok (not (is_binding bytes message)) invalid_stun_binding _ h₁ in
      record {
        sent = bytes;
        message = message;
        read = read;
        least = least;
        most = most;
        decoded = ground arith;
        binding = ground arith;
        whole = ground arith;
        built = ground arith;
      }

  replied-Replies :
      (turn : Turn) (turns : List Turn) (r : Result Bytes) (written : Bool) (source : Source)
      (rest : Ending × List Reply)
      → ((response : Bytes) → r ≡ ok response → IsAnswered lib turn (source, response))
      → Replies lib turns rest.1
      → Replies lib (turn ∷ turns) (replied lib r written source rest).1
  replied-Replies turn turns (err c) written source rest h k = silent k
  replied-Replies turn turns (ok response) true source rest h k = answers (h response refl) k
  replied-Replies turn turns (ok response) false source rest h k = ends

  turn-Replies :
      (turn : Turn) (turns : List Turn) (r : Read) (next : Limiter → Ending × List Reply)
      (budget : Limiter)
      → turn.read ≡ r
      → ((budget : Limiter) → Replies lib turns (next budget).1)
      → Replies lib (turn ∷ turns) (serve_turn lib turn r next budget).1
  turn-Replies turn turns broken next budget read h = ends
  turn-Replies turn turns (packet sent source) next budget read h =
      let bytes = take buffer_size sent in
      let test = passes bytes source turn.now budget in
      elim (Bool-cases test.0) [
        | inr f ↦ rw f (silent (h test.1))
        | inl f ↦
            let (least, most) = passes_size bytes source turn.now budget f in
            let whole : bytes ≡ sent = take-all buffer_size sent (omega (arith, most)) in
            rw f (
              replied-Replies turn turns (stun_response lib bytes source) turn.written source
                (next test.1)
                (λ response.
                  stun_response_ok turn bytes source response
                    (read ∙ ap (λ b. packet b source) (sym whole)) least most)
                (h test.1))
      ]

  -- What the loop writes are answers to the turns, in their order, at most one for each: each to
  -- the source of a datagram of 20 to 1024 bytes that is a Binding request with the length that
  -- its header gives, and with the response that the library builds for it.
  pub serve_stun-Replies :
      (turns : List Turn) (budget : Limiter) → Replies lib turns (serve_stun lib turns budget).1
  unfolding serve_stun
  serve_stun-Replies [] budget = ends
  serve_stun-Replies (turn ∷ turns) budget =
      turn-Replies turn turns turn.read (serve_stun lib turns) budget refl
        (serve_stun-Replies turns)
