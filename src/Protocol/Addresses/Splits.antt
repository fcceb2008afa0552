-- ===== src/Protocol/Addresses/Splits.antt =====
-- Host and port, split and joined again.
use dshker_server.Prelude.{
  Bool-cases, List, Option-cases, [], ap, arith, false, inl, inr, none, refl, some, ℕ, ◌++◌, ◌==◌,
  ◌||◌, ◌∷◌, ◌≡◌,
}
use dshker_server.Protocol.Addresses.{
  bracketed_parts, holds, join_host_port, plain_parts, split_first, split_host_port, split_last,
}

holds-append : (c : ℕ) (a b : List ℕ) → holds c (a ++ b) ≡ (holds c a || holds c b)
holds-append c [] b = refl
holds-append c (x ∷ a) b = ground (arith, holds-append c a b)

-- What comes before the first such character does not hold it.
split_first-holds : (c : ℕ) (s a b : List ℕ) → split_first c s ≡ some (a, b) → holds c a ≡ false
unfolding split_first
split_first-holds c [] a b h = cc
split_first-holds c (x ∷ s) a b h = elim (Option-cases (split_first c s)) [
  | inl e ↦ ground arith
  | inr ((a', b'), e) ↦ ground (arith, split_first-holds c s a' b' e)
]

split_first-append :
    (c : ℕ) (a b : List ℕ) → holds c a ≡ false → split_first c (a ++ c ∷ b) ≡ some (a, b)
unfolding split_first
split_first-append c [] b h = ground arith
split_first-append c (x ∷ a) b h = ground (arith, split_first-append c a b)

split_last-none : (c : ℕ) (b : List ℕ) → holds c b ≡ false → split_last c b ≡ none
unfolding split_last
split_last-none c [] h = refl
split_last-none c (x ∷ b) h = ground (arith, split_last-none c b)

split_last-append :
    (c : ℕ) (a b : List ℕ) → holds c b ≡ false → split_last c (a ++ c ∷ b) ≡ some (a, b)
unfolding split_last
split_last-append c [] b h = ground (arith, split_last-none c b)
split_last-append c (x ∷ a) b h = ground (arith, split_last-append c a b)

split_last-none_of : (c : ℕ) (s : List ℕ) → split_last c s ≡ none → holds c s ≡ false
unfolding split_last
split_last-none_of c [] h = refl
split_last-none_of c (x ∷ s) h = elim (Option-cases (split_last c s)) [
  | inl e ↦ ground (arith, split_last-none_of c s e)
  | inr ((a', b'), e) ↦ absurd (ground arith)
]

-- Nothing is lost, and the last part does not hold the character.
split_last_parts :
    (c : ℕ) (s a b : List ℕ) → split_last c s ≡ some (a, b) → (s ≡ a ++ c ∷ b) × (holds c b ≡ false)
unfolding split_last
split_last_parts c [] a b h = absurd (ground arith)
split_last_parts c (x ∷ s) a b h = elim (Option-cases (split_last c s)) [
  | inl e ↦ ground (arith, split_last-none_of c s e)
  | inr ((a', b'), e) ↦ ground (arith, split_last_parts c s a' b' e)
]

-- What the two parts of an address do not hold.
pub record IsClean (host port : List ℕ) : Type 0 where
  pub host_open : holds b'[' host ≡ false
  pub host_shut : holds b']' host ≡ false
  pub port_colon : holds b':' port ≡ false
  pub port_open : holds b'[' port ≡ false
  pub port_shut : holds b']' port ≡ false

plain_parts-IsClean :
    (s host port : List ℕ)
    → plain_parts s (split_last b':' s) ≡ some (host, port)
    → IsClean host port
plain_parts-IsClean s host port h = elim (Option-cases (split_last b':' s)) [
  | inl e ↦ absurd (ground arith)
  | inr ((a, b), e) ↦
      let (whole, last) = split_last_parts b':' s a b e in
      let opens = holds-append b'[' a (b':' ∷ b) in
      let shut = holds-append b']' a (b':' ∷ b) in
      let opens_same = ap (holds b'[') whole in
      let shut_same = ap (holds b']') whole in
      record {
        host_open = ground arith;
        host_shut = ground arith;
        port_colon = ground arith;
        port_open = ground arith;
        port_shut = ground arith;
      }
]

bracketed_parts-IsClean :
    (s host port : List ℕ)
    → bracketed_parts (split_first b']' s) ≡ some (host, port)
    → IsClean host port
bracketed_parts-IsClean s host port h = elim (Option-cases (split_first b']' s)) [
  | inl e ↦ absurd (ground arith)
  | inr ((a, []), e) ↦ absurd (ground arith)
  | inr ((a, c ∷ b), e) ↦
      let shut = split_first-holds b']' s a (c ∷ b) e in
      record {
        host_open = ground arith;
        host_shut = ground arith;
        port_colon = ground arith;
        port_open = ground arith;
        port_shut = ground arith;
      }
]

pub split_host_port-IsClean :
    (s host port : List ℕ) → split_host_port s ≡ some (host, port) → IsClean host port
unfolding split_host_port
split_host_port-IsClean [] host port h = absurd (ground arith)
split_host_port-IsClean (c ∷ s) host port h = elim (Bool-cases (c == b'[')) [
  | inl e ↦ bracketed_parts-IsClean s host port (rw e at h)
  | inr e ↦ plain_parts-IsClean (c ∷ s) host port (rw e at h)
]

-- Without a colon in the host no brackets are needed.
plain_join :
    (host port : List ℕ)
    → holds b':' host ≡ false
    → IsClean host port
    → split_host_port (host ++ b':' ∷ port) ≡ some (host, port)
unfolding split_host_port
plain_join [] port free clean = ground (arith, split_last-append b':' [] port)
plain_join (x ∷ xs) port free clean = ground (
  arith,
  split_last-append b':' (x ∷ xs) port,
  holds-append b'[' (x ∷ xs) (b':' ∷ port),
  holds-append b']' (x ∷ xs) (b':' ∷ port),
)

pub split_host_port-join_host_port :
    (host port : List ℕ)
    → IsClean host port
    → split_host_port (join_host_port host port) ≡ some (host, port)
unfolding split_host_port join_host_port
split_host_port-join_host_port host port clean = elim (Bool-cases (holds b':' host)) [
  | inl e ↦ rw e (ground (arith, split_first-append b']' host (b':' ∷ port)))
  | inr e ↦ rw e (plain_join host port e clean)
]
