-- ===== src/Protocol/Json/Turns.antt =====
-- The loop of `uniqueValue` never runs out of turns.
use dshker_server.Prelude.{
  Bool, Bool-cases, List, Result, Result-cases, String, [], arith, bind_ok, false, inl, inr, length,
  ok, refl, suc, true, zero, ℕ, ◌<◌, ◌>>=◌, ◌∷◌, ◌≡◌, ◌≤◌,
}
use dshker_server.Protocol.Json.{
  Token, atom, closing, garbled, members, more, null, opens, read_key, shuts, unique_value, word,
}

-- Reading something leaves fewer tokens.
abbrev Shortens : (List Token → Result (List Token)) → Type 0
Shortens value = (ts rest : List Token) → value ts ≡ ok rest → length rest < length ts

closing-shorter : Shortens closing
closing-shorter [] rest h = cc
closing-shorter (garbled b ∷ ts) rest h = cc
closing-shorter (opens o ∷ ts) rest h = ground arith
closing-shorter (shuts ∷ ts) rest h = ground arith
closing-shorter (word s ∷ ts) rest h = ground arith
closing-shorter (null ∷ ts) rest h = ground arith
closing-shorter (atom ∷ ts) rest h = ground arith

read_key-shorter :
    (is_object : Bool) (keys : List String) (ts : List Token) {key : List String × List Token}
    → read_key is_object keys ts ≡ ok key
    → length key.1 ≤ length ts
read_key-shorter false keys ts h = ground arith
read_key-shorter true keys [] h = cc
read_key-shorter true keys (garbled b ∷ ts) h = cc
read_key-shorter true keys (opens o ∷ ts) h = cc
read_key-shorter true keys (shuts ∷ ts) h = cc
read_key-shorter true keys (word s ∷ ts) h = ground arith
read_key-shorter true keys (null ∷ ts) h = cc
read_key-shorter true keys (atom ∷ ts) h = cc

members-shorter :
    (value : List Token → Result (List Token)) (turns : ℕ) (is_object : Bool) (keys : List String)
    → Shortens value
    → Shortens (members value turns is_object keys)
unfolding members
members-shorter value zero is_object keys s ts rest h = closing-shorter ts rest h
members-shorter value (suc turns) is_object keys s ts rest h = elim (Bool-cases (more ts)) [
  | inr e ↦ closing-shorter ts rest (ground arith)
  | inl e ↦
      let h' : (read_key is_object keys ts >>= λ key.
      value key.1 >>= λ left. members value turns is_object key.0 left)
          ≡ ok rest =
        ground arith in
      let (key, k, h₁) = bind_ok (read_key is_object keys ts) _ h' in
      let (left, l, h₂) = bind_ok (value key.1) _ h₁ in
      omega (
        arith,
        read_key-shorter is_object keys ts k,
        s key.1 left l,
        members-shorter value turns is_object key.0 s left rest h₂,
      )
]

pub unique_value-shorter : (levels : ℕ) → Shortens (unique_value levels)
unfolding unique_value
unique_value-shorter zero ts rest h = cc
unique_value-shorter (suc levels) [] rest h = cc
unique_value-shorter (suc levels) (garbled b ∷ ts) rest h = cc
unique_value-shorter (suc levels) (null ∷ ts) rest h = cc
unique_value-shorter (suc levels) (word s ∷ ts) rest h = ground arith
unique_value-shorter (suc levels) (atom ∷ ts) rest h = ground arith
unique_value-shorter (suc levels) (opens o ∷ ts) rest h = omega (
  arith,
  members-shorter (unique_value levels) (length ts) o [] (unique_value-shorter levels) ts rest h,
)
unique_value-shorter (suc levels) (shuts ∷ ts) rest h = omega (
  arith,
  members-shorter (unique_value levels) (length ts) false [] (unique_value-shorter levels) ts rest
      h,
)

-- No token, no member.
more-length : (ts : List Token) → more ts ≡ true → 0 < length ts
more-length [] h = cc
more-length (t ∷ ts) h = omega arith

-- The loop over the members of a container gives the same for any two numbers of turns that are
-- not below the number of tokens, whatever the tokens: it never stops for want of turns.
pub members-turns :
    (levels m n : ℕ) (is_object : Bool) (keys : List String) (ts : List Token)
    → length ts ≤ m
    → length ts ≤ n
    → members (unique_value levels) m is_object keys ts
      ≡ members (unique_value levels) n is_object keys ts
unfolding members
members-turns levels zero zero is_object keys ts h k = refl
members-turns levels zero (suc n) is_object keys ts h k = elim (Bool-cases (more ts)) [
  | inr e ↦ rw e refl
  | inl e ↦ absurd (omega (arith, more-length ts e))
]
members-turns levels (suc m) zero is_object keys ts h k = elim (Bool-cases (more ts)) [
  | inr e ↦ rw e refl
  | inl e ↦ absurd (omega (arith, more-length ts e))
]
members-turns levels (suc m) (suc n) is_object keys ts h k = elim (Bool-cases (more ts)) [
  | inr e ↦ rw e refl
  | inl e ↦ rw e (elim (Result-cases (read_key is_object keys ts)) [
    | inl (c, r) ↦ rw r refl
    | inr (key, r) ↦ rw r (elim (Result-cases (unique_value levels key.1)) [
      | inl (c, v) ↦ rw v refl
      | inr (left, v) ↦
          let shorter : length left < length ts = omega (
            arith,
            read_key-shorter is_object keys ts r,
            unique_value-shorter levels key.1 left v,
          ) in
          rw v (
            members-turns levels m n is_object key.0 left (omega (arith, shorter, h))
              (omega (arith, shorter, k)))
    ])
  ])
]
