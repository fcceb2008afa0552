-- ===== src/Prelude/Maps.antt =====
-- Go maps with string keys, as association lists in which a key is looked up from the front.
use Prim.Native.Nat.{ℕ, ◌+◌, ◌≤◌}
use Prim.Native.String.{String}
use mathlib.Core.Path.{◌≡◌, refl}
use mathlib.Core.Bool.{Bool, true, false, ◌&&◌}
use mathlib.Core.Option.{Option, none, some}
use mathlib.Core.List.{List, [], ◌∷◌}
use native.Mathlib.Omega.{arith}
use dshker_server.Prelude.Tests.{if◌then◌else◌}
use dshker_server.Prelude.Text.{◌=s=◌, str_iff}

abbrev pub Map {ℓ} : Type ℓ → Type ℓ
Map V = List (String × V)

module _ {ℓ} {V : Type ℓ} where
  abbrev pub get : String → Map V → Option V
  get k [] = none
  get k ((j, v) ∷ m) = if j =s= k then some v else get k m

  -- `delete(m, k)`
  abbrev pub remove : String → Map V → Map V
  remove k [] = []
  remove k ((j, v) ∷ m) = let rest = remove k m in if j =s= k then rest else (j, v) ∷ rest

  -- `m[k] = v`
  abbrev pub put : String → V → Map V → Map V
  put k v m = (k, v) ∷ remove k m

  -- The entries whose value passes a test.
  abbrev pub keep_if : (V → Bool) → Map V → Map V
  keep_if p [] = []
  keep_if p ((j, v) ∷ m) = let rest = keep_if p m in if p v then (j, v) ∷ rest else rest

  abbrev pub any_value : (V → Bool) → Map V → Bool
  any_value p [] = false
  any_value p ((_, v) ∷ m) = if p v then true else any_value p m

  pub get-remove_self : (k : String) (m : Map V) → get k (remove k m) ≡ none
  get-remove_self k [] = refl
  get-remove_self k ((j, v) ∷ m) = ground (arith, get-remove_self k m)

  pub get-remove : (k j : String) (m : Map V) → (k =s= j) ≡ false → get j (remove k m) ≡ get j m
  get-remove k j [] h = refl
  get-remove k j ((i, v) ∷ m) h =
      ground (arith, get-remove k j m, str_iff i k, str_iff i j, str_iff k j)

  pub get-put :
      (k j : String) (v : V) (m : Map V) → get j (put k v m) ≡ (if k =s= j then some v else get j m)
  get-put k j v m = ground (arith, get-remove k j m)

  abbrev pub count_values : (V → Bool) → Map V → ℕ
  count_values p [] = 0
  count_values p ((_, v) ∷ m) = (if p v then 1 else 0) + count_values p m

  abbrev pub all_entries : (String → V → Bool) → Map V → Bool
  all_entries p [] = true
  all_entries p ((k, v) ∷ m) = p k v && all_entries p m

  pub count_values-keep_if_le :
      (p q : V → Bool) (m : Map V) → count_values p (keep_if q m) ≤ count_values p m
  count_values-keep_if_le p q [] = omega arith
  count_values-keep_if_le p q ((k, v) ∷ m) = ground (arith, count_values-keep_if_le p q m)

  pub count_values-remove_le :
      (p : V → Bool) (k : String) (m : Map V) → count_values p (remove k m) ≤ count_values p m
  count_values-remove_le p k [] = omega arith
  count_values-remove_le p k ((j, v) ∷ m) = ground (arith, count_values-remove_le p k m)

  -- Taking an entry out takes its value out of the count.
  pub count_values-remove-get :
      (p : V → Bool) (k : String) (m : Map V) {v : V}
      → get k m ≡ some v
      → count_values p (remove k m) + (if p v then 1 else 0) ≤ count_values p m
  count_values-remove-get p k [] h = cc
  count_values-remove-get p k ((j, w) ∷ m) {v} h =
      ground (arith, count_values-remove-get p k m {v = v}, count_values-remove_le p k m)

  pub count_of_not-any_value :
      (p : V → Bool) (m : Map V) → any_value p m ≡ false → count_values p m ≡ 0
  count_of_not-any_value p [] h = refl
  count_of_not-any_value p ((k, v) ∷ m) h = ground (arith, count_of_not-any_value p m)

  pub count_values-le_of_imp :
      (p q : V → Bool) (m : Map V)
      → ((v : V) → p v ≡ true → q v ≡ true)
      → count_values p m ≤ count_values q m
  count_values-le_of_imp p q [] h = omega arith
  count_values-le_of_imp p q ((k, v) ∷ m) h = ground (arith, h v, count_values-le_of_imp p q m h)

  pub all_entries-remove :
      (p : String → V → Bool) (k : String) (m : Map V)
      → all_entries p m ≡ true
      → all_entries p (remove k m) ≡ true
  all_entries-remove p k [] h = refl
  all_entries-remove p k ((j, v) ∷ m) h = ground (arith, all_entries-remove p k m)

  pub all_entries-keep_if :
      (p : String → V → Bool) (q : V → Bool) (m : Map V)
      → all_entries p m ≡ true
      → all_entries p (keep_if q m) ≡ true
  all_entries-keep_if p q [] h = refl
  all_entries-keep_if p q ((j, v) ∷ m) h = ground (arith, all_entries-keep_if p q m)

  pub all_entries-get :
      (p : String → V → Bool) (k : String) (m : Map V) {v : V}
      → all_entries p m ≡ true
      → get k m ≡ some v
      → p k v ≡ true
  all_entries-get p k [] h e = cc
  all_entries-get p k ((j, w) ∷ m) {v} h e =
      ground (arith, str_iff j k, all_entries-get p k m {v = v})
