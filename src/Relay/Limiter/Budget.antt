-- ===== src/Relay/Limiter/Budget.antt =====
-- internal/coordinator/stun.go: the bounds that the budgets keep.
use dshker_server.Prelude.{
  Bool, Bool-cases, Map, Option-cases, String, [], all_entries, all_entries-get,
  all_entries-keep_if, all_entries-remove, arith, false, get, inl, inr, is_some, keep_if, leb, not,
  put, refl, remove, true, ℕ, ◌&&◌, ◌<◌, ◌∷◌, ◌≡◌, ◌≤◌,
}
use dshker_server.Protocol.Ids.{minute}
use dshker_server.Relay.Limiter.{
  Limiter, SourceBudget, allow, budget_of, is_over, new_limiter, recent, renewed, size, spent_one,
}

abbrev pub within : String → SourceBudget → Bool
within key b = leb b.count 20

pub record IsWithin (l : Limiter) : Type 0 where
  -- No source has had more than twenty answers in its second, nor all of them more than a thousand.
  pub each : all_entries within l.sources ≡ true
  pub all_of_them : l.global.count ≤ 1000
  -- The memory stays bounded.
  pub few : size l.sources ≤ 1024

size-keep_if_le : (p : SourceBudget → Bool) (m : Map SourceBudget) → size (keep_if p m) ≤ size m
size-keep_if_le p [] = omega arith
size-keep_if_le p ((k, v) ∷ m) = ground (arith, size-keep_if_le p m)

size-remove_le : (k : String) (m : Map SourceBudget) → size (remove k m) ≤ size m
size-remove_le k [] = omega arith
size-remove_le k ((j, v) ∷ m) = ground (arith, size-remove_le k m)

-- A key that is there makes room for itself.
size-remove_lt :
    (k : String) (m : Map SourceBudget) → is_some (get k m) ≡ true → size (remove k m) < size m
size-remove_lt k [] h = cc
size-remove_lt k ((j, v) ∷ m) h = ground (arith, size-remove_lt k m, size-remove_le k m)

new-IsWithin : IsWithin new_limiter
unfolding new_limiter
new-IsWithin = record { each = refl; all_of_them = omega arith; few = omega arith }

-- What a source has used in its second is within the bound.
within_value :
    (source : String) (now : ℕ) (sources : Map SourceBudget)
    → all_entries within sources ≡ true
    → (renewed now (budget_of (get source sources))).count ≤ 20
within_value source now sources h = elim (Option-cases (get source sources)) [
  | inl e ↦ rw e (omega arith)
  | inr (b, e) ↦ ground (arith, e, all_entries-get within source sources {v = b} h e)
]

-- An answer adds one to its source and to all, where both have room.
answered-IsWithin :
    (source : String) (value global : SourceBudget) (sources : Map SourceBudget)
    → all_entries within sources ≡ true
    → size sources ≤ 1024
    → (not (is_some (get source sources)) && leb 1024 (size sources)) ≡ false
    → value.count < 20
    → global.count < 1000
    → IsWithin
        (record { sources = put source (spent_one value) sources; global = spent_one global })
answered-IsWithin source value global sources each few room v g = record {
  each = ground (arith, all_entries-remove within source sources each);
  all_of_them = omega (arith, g);
  few = ground (arith, size-remove_le source sources, size-remove_lt source sources);
}

-- Every request, answered or not, at any time, keeps the budgets within their bounds: twenty
-- answers for a source, a thousand for all, and 1024 sources in memory.
pub allow-IsWithin :
    (source : String) (now : ℕ) (l : Limiter) → IsWithin l → IsWithin (allow source now l).1
unfolding allow
allow-IsWithin source now l w =
    let global = renewed now l.global in
    let sources = recent now l.sources in
    let value = renewed now (budget_of (get source sources)) in
    let each = all_entries-keep_if within (λ b. not (is_over minute now b)) l.sources w.each in
    let few : size sources ≤ 1024 =
      omega (arith, w.few, size-keep_if_le (λ b. not (is_over minute now b)) l.sources) in
    let all_of_them : global.count ≤ 1000 = ground (arith, w.all_of_them) in
    elim (Bool-cases (leb 1000 global.count)) [
      | inl e ↦ rw (e, allow) (record { each = w.each; all_of_them = all_of_them; few = w.few })
      | inr e ↦ elim (Bool-cases (not (is_some (get source sources)) && leb 1024 (size sources))) [
        | inl f ↦ rw (e, f, allow) (record { each = each; all_of_them = all_of_them; few = few })
        | inr f ↦ elim (Bool-cases (leb 20 value.count)) [
          | inl g ↦
              rw (e, f, g, allow) (record { each = each; all_of_them = all_of_them; few = few })
          | inr g ↦
              rw (e, f, g, allow)
                (answered-IsWithin source value global sources each few f (ground arith)
                  (ground arith))
        ]
      ]
    ]
