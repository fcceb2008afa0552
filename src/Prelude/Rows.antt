-- ===== src/Prelude/Rows.antt =====
-- Laws of the operations on tables.
use Prim.Native.Nat.{ℕ, ◌+◌, ◌≤◌}
use mathlib.Core.Path.{◌≡◌, refl}
use mathlib.Core.Bool.{Bool, true, false, not, ◌&&◌, ◌||◌}
use mathlib.Core.Option.{none, some}
use mathlib.Core.List.{List, [], ◌∷◌, ◌++◌}
use native.Mathlib.Omega.{arith}
use mathlib.Core.Logic.{inl, inr}
use dshker_server.Prelude.Tests.{◌==◌, Bool-cases}
use dshker_server.Prelude.Tables.{find, any, all, count, update, delete, select}

module _ {ℓ} {A : Type ℓ} where
  pub count-append : (p : A → Bool) (xs ys : List A) → count p (xs ++ ys) ≡ count p xs + count p ys
  count-append p [] ys = omega arith
  count-append p (x ∷ xs) ys = omega (arith, count-append p xs ys)

  -- An update that no row of the count feels.
  pub count-update_same :
      (p q : A → Bool) (f : A → A) (xs : List A)
      → ((x : A) → q x ≡ true → p (f x) ≡ p x)
      → count p (update q f xs) ≡ count p xs
  count-update_same p q f [] h = refl
  count-update_same p q f (x ∷ xs) h = ground (arith, h x, count-update_same p q f xs h)

  -- An update that brings no row into the count.
  pub count-update_le :
      (p q : A → Bool) (f : A → A) (xs : List A)
      → ((x : A) → q x ≡ true → p (f x) ≡ true → p x ≡ true)
      → count p (update q f xs) ≤ count p xs
  count-update_le p q f [] h = omega arith
  count-update_le p q f (x ∷ xs) h = ground (arith, h x, count-update_le p q f xs h)

  -- An update adds to a count the updated rows outside it, at most.
  pub count-update_add :
      (p q : A → Bool) (f : A → A) (xs : List A)
      → count p (update q f xs) ≤ count p xs + count (λ x. q x && not (p x)) xs
  count-update_add p q f [] = omega arith
  count-update_add p q f (x ∷ xs) = ground (arith, count-update_add p q f xs)

  pub count-split :
      (p q : A → Bool) (xs : List A)
      → count (λ x. q x && p x) xs + count (λ x. q x && not (p x)) xs ≡ count q xs
  count-split p q [] = refl
  count-split p q (x ∷ xs) = ground (arith, count-split p q xs)

  -- An update that takes every row out of the count.
  pub count-update_none :
      (p q : A → Bool) (f : A → A) (xs : List A)
      → ((x : A) → q x ≡ true → p (f x) ≡ false)
      → ((x : A) → q x ≡ false → p x ≡ false)
      → count p (update q f xs) ≡ 0
  count-update_none p q f [] h k = refl
  count-update_none p q f (x ∷ xs) h k = ground (arith, h x, k x, count-update_none p q f xs h k)

  pub count-le_of_imp :
      (p q : A → Bool) (xs : List A) → ((x : A) → p x ≡ true → q x ≡ true) → count p xs ≤ count q xs
  count-le_of_imp p q [] h = omega arith
  count-le_of_imp p q (x ∷ xs) h = ground (arith, h x, count-le_of_imp p q xs h)

  pub count_of_not-any : (p : A → Bool) (xs : List A) → any p xs ≡ false → count p xs ≡ 0
  count_of_not-any p [] h = refl
  count_of_not-any p (x ∷ xs) h = ground (arith, count_of_not-any p xs)

  pub count_of_any : (p : A → Bool) (xs : List A) → any p xs ≡ true → 1 ≤ count p xs
  count_of_any p [] h = cc
  count_of_any p (x ∷ xs) h = ground (arith, count_of_any p xs)

  pub any_of_count : (p : A → Bool) (xs : List A) → 1 ≤ count p xs → any p xs ≡ true
  any_of_count p [] h = absurd (omega arith)
  any_of_count p (x ∷ xs) h = ground (arith, any_of_count p xs)

  pub not-any_of_count : (p : A → Bool) (xs : List A) → count p xs ≡ 0 → any p xs ≡ false
  not-any_of_count p [] h = refl
  not-any_of_count p (x ∷ xs) h = ground (arith, not-any_of_count p xs)

  pub find_sound : (p : A → Bool) (xs : List A) {x : A} → find p xs ≡ some x → p x ≡ true
  find_sound p [] h = cc
  find_sound p (y ∷ xs) {x} h = ground (arith, find_sound p xs {x = x})

  pub find-append_none :
      (p : A → Bool) (xs ys : List A) → find p xs ≡ none → find p (xs ++ ys) ≡ find p ys
  find-append_none p [] ys h = refl
  find-append_none p (x ∷ xs) ys h = ground (arith, find-append_none p xs ys)

  pub any_of_find : (p : A → Bool) (xs : List A) {x : A} → find p xs ≡ some x → any p xs ≡ true
  any_of_find p [] h = cc
  any_of_find p (y ∷ xs) {x} h = ground (arith, any_of_find p xs {x = x})

  pub find_of_any : (p : A → Bool) (xs : List A) → any p xs ≡ true → (x : A) × (find p xs ≡ some x)
  find_of_any p [] h = cc
  find_of_any p (x ∷ xs) h = elim (Bool-cases (p x)) [
    | inl e ↦ (x, rw e)
    | inr e ↦ let (y, f) = find_of_any p xs (ground arith) in (y, rw e f)
  ]

  -- A row that `find` returns and that passes a test.
  pub any_of_found :
      (p q : A → Bool) (xs : List A) {x : A} → find p xs ≡ some x → q x ≡ true → any q xs ≡ true
  any_of_found p q [] h k = cc
  any_of_found p q (y ∷ xs) {x} h k = ground (arith, any_of_found p q xs {x = x})

  -- A row that `find` returns has what every row has.
  pub all-find :
      (p q : A → Bool) (xs : List A) {x : A} → find p xs ≡ some x → all q xs ≡ true → q x ≡ true
  all-find p q [] h k = cc
  all-find p q (y ∷ xs) {x} h k = ground (arith, all-find p q xs {x = x})

  pub all-append :
      (p : A → Bool) (xs ys : List A) → all p xs ≡ true → all p ys ≡ true → all p (xs ++ ys) ≡ true
  all-append p [] ys h k = k
  all-append p (x ∷ xs) ys h k = ground (arith, all-append p xs ys)

  pub all-update :
      (p q : A → Bool) (f : A → A) (xs : List A)
      → ((x : A) → p x ≡ true → p (f x) ≡ true)
      → all p xs ≡ true
      → all p (update q f xs) ≡ true
  all-update p q f [] h k = refl
  all-update p q f (x ∷ xs) h k = ground (arith, h x, all-update p q f xs h)

  -- `find` sees through an update that its test does not feel.
  pub find-update-none :
      (p q : A → Bool) (f : A → A) (xs : List A)
      → ((x : A) → q x ≡ true → p (f x) ≡ false)
      → ((x : A) → q x ≡ false → p x ≡ false)
      → find p (update q f xs) ≡ none
  find-update-none p q f [] h k = refl
  find-update-none p q f (x ∷ xs) h k = ground (arith, h x, k x, find-update-none p q f xs h k)

  pub any-update_none :
      (p q : A → Bool) (f : A → A) (xs : List A)
      → ((x : A) → q x ≡ true → p (f x) ≡ false)
      → ((x : A) → q x ≡ false → p x ≡ false)
      → any p (update q f xs) ≡ false
  any-update_none p q f [] h k = refl
  any-update_none p q f (x ∷ xs) h k = ground (arith, h x, k x, any-update_none p q f xs h k)

  -- An update that no row of the test feels.
  pub any-update_same :
      (p q : A → Bool) (f : A → A) (xs : List A)
      → ((x : A) → q x ≡ true → p (f x) ≡ p x)
      → any p (update q f xs) ≡ any p xs
  any-update_same p q f [] h = refl
  any-update_same p q f (x ∷ xs) h = ground (arith, h x, any-update_same p q f xs h)

  -- An update of a row that is there.
  pub any-update-true :
      (p q : A → Bool) (f : A → A) (xs : List A)
      → ((x : A) → q x ≡ true → p (f x) ≡ true)
      → any q xs ≡ true
      → any p (update q f xs) ≡ true
  any-update-true p q f [] h k = cc
  any-update-true p q f (x ∷ xs) h k = ground (arith, h x, any-update-true p q f xs h)

  -- A deletion that takes every row of the test.
  pub any-delete_none :
      (p q : A → Bool) (xs : List A)
      → ((x : A) → p x ≡ true → q x ≡ true)
      → any p (delete q xs) ≡ false
  any-delete_none p q [] h = refl
  any-delete_none p q (x ∷ xs) h = ground (arith, h x, any-delete_none p q xs h)

  pub any-append : (p : A → Bool) (xs ys : List A) → any p ys ≡ true → any p (xs ++ ys) ≡ true
  any-append p [] ys h = h
  any-append p (x ∷ xs) ys h = ground (arith, any-append p xs ys h)

  pub find-select :
      (p q : A → Bool) (xs : List A) → find p (select q xs) ≡ find (λ x. q x && p x) xs
  find-select p q [] = refl
  find-select p q (x ∷ xs) = ground (arith, find-select p q xs)

  pub count_of_find :
      (p q : A → Bool) (xs : List A) {x : A} → find p xs ≡ some x → q x ≡ true → 1 ≤ count q xs
  count_of_find p q [] e k = cc
  count_of_find p q (y ∷ xs) {x} e k = ground (arith, count_of_find p q xs {x = x})

  all_of_none :
      (q r : A → Bool) (xs : List A) → count q xs ≡ 0 → all (λ y. not (q y) || r y) xs ≡ true
  all_of_none q r [] h = refl
  all_of_none q r (y ∷ xs) h = ground (arith, all_of_none q r xs)

  -- Where one row passes a test, a found row that passes it is that row.
  pub only_row :
      (p q : A → Bool) (g : A → ℕ) (xs : List A) {x : A}
      → count q xs ≤ 1
      → find p xs ≡ some x
      → q x ≡ true
      → all (λ y. not (q y) || g y == g x) xs ≡ true
  only_row p q g [] h e k = refl
  only_row p q g (y ∷ xs) {x} h e k = ground (
    arith,
    all_of_none q (λ y. g y == g x) xs,
    count_of_find p q xs {x = x},
    only_row p q g xs {x = x},
  )

  -- `count-update_le`, where all rows have what the premise needs.
  pub count-update_le_all :
      (p q r : A → Bool) (f : A → A) (xs : List A)
      → all r xs ≡ true
      → ((x : A) → r x ≡ true → q x ≡ true → p (f x) ≡ true → p x ≡ true)
      → count p (update q f xs) ≤ count p xs
  count-update_le_all p q r f [] k h = omega arith
  count-update_le_all p q r f (x ∷ xs) k h = ground (arith, h x, count-update_le_all p q r f xs)

  -- One more row.
  pub count-insert_le :
      (p : A → Bool) (xs : List A) (x : A) → count p (xs ++ x ∷ []) ≤ count p xs + 1
  count-insert_le p xs x = ground (arith, count-append p xs (x ∷ []))

  pub count-insert_false :
      (p : A → Bool) (xs : List A) (x : A) → p x ≡ false → count p (xs ++ x ∷ []) ≡ count p xs
  count-insert_false p xs x h = ground (arith, count-append p xs (x ∷ []))
