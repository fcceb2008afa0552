-- ===== src/Prelude/Kept.antt =====
-- The rows that an insertion or an update leaves as they were.
use Prim.Native.Nat.{◌≤◌}
use mathlib.Core.Path.{◌≡◌, refl}
use mathlib.Core.Bool.{Bool, true, false}
use mathlib.Core.Option.{some}
use mathlib.Core.List.{List, [], ◌∷◌, ◌++◌}
use native.Mathlib.Omega.{arith}
use mathlib.Core.Logic.{inl, inr}
use dshker_server.Prelude.Tests.{Bool-cases}
use dshker_server.Prelude.Tables.{find, any, count, update, delete, select}
use dshker_server.Prelude.Rows.{count_of_find, count_of_any, count-le_of_imp}

module _ {ℓ} {A : Type ℓ} where
  pub select-insert :
      (keep : A → Bool) (xs : List A) (x : A)
      → keep x ≡ false
      → select keep (xs ++ x ∷ []) ≡ select keep xs
  select-insert keep [] x h = rw h refl
  select-insert keep (y ∷ xs) x h = ground (arith, select-insert keep xs x h)

  pub select-update :
      (keep q : A → Bool) (f : A → A) (xs : List A)
      → ((x : A) → q x ≡ true → keep x ≡ false)
      → ((x : A) → q x ≡ true → keep (f x) ≡ false)
      → select keep (update q f xs) ≡ select keep xs
  select-update keep q f [] h k = refl
  select-update keep q f (x ∷ xs) h k = ground (arith, h x, k x, select-update keep q f xs h k)

  pub update-none : (q : A → Bool) (f : A → A) (xs : List A) → count q xs ≡ 0 → update q f xs ≡ xs
  update-none q f [] h = refl
  update-none q f (x ∷ xs) h = ground (arith, update-none q f xs)

  -- The update of the one row that passes a test, where that row is the one that was found.
  pub select-update_found :
      (keep q found : A → Bool) (f : A → A) (xs : List A) {x : A}
      → count q xs ≤ 1
      → find found xs ≡ some x
      → q x ≡ true
      → ((y : A) → found y ≡ true → keep y ≡ false)
      → ((y : A) → keep (f y) ≡ keep y)
      → select keep (update q f xs) ≡ select keep xs
  select-update_found keep q found f [] one e is h k = refl
  select-update_found keep q found f (y ∷ xs) {x} one e is h k = elim (Bool-cases (found y)) [
    | inl g ↦ ground (arith, h y g, k y, update-none q f xs)
    | inr g ↦
        ground
          (arith, count_of_find found q xs {x = x}, select-update_found keep q found f xs {x = x})
  ]

  pub delete-none : (q : A → Bool) (xs : List A) → count q xs ≡ 0 → delete q xs ≡ xs
  delete-none q [] h = refl
  delete-none q (x ∷ xs) h = ground (arith, delete-none q xs)

  -- The deletion of the one row that passes a test, where a row that passes it is not kept.
  pub select-delete_only :
      (keep q r : A → Bool) (xs : List A)
      → count q xs ≤ 1
      → any r xs ≡ true
      → ((y : A) → r y ≡ true → q y ≡ true)
      → ((y : A) → r y ≡ true → keep y ≡ false)
      → select keep (delete q xs) ≡ select keep xs
  select-delete_only keep q r [] one e h k = refl
  select-delete_only keep q r (y ∷ xs) one e h k = elim (Bool-cases (r y)) [
    | inl g ↦ ground (arith, h y g, k y g, delete-none q xs)
    | inr g ↦
        ground (arith, count_of_any r xs, count-le_of_imp r q xs h, select-delete_only keep q r xs)
  ]

  pub any_of_any :
      (p q : A → Bool) (xs : List A)
      → ((x : A) → p x ≡ true → q x ≡ true)
      → any p xs ≡ true
      → any q xs ≡ true
  any_of_any p q [] h k = k
  any_of_any p q (x ∷ xs) h k = ground (arith, h x, any_of_any p q xs h)
