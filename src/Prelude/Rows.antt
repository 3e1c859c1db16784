-- ===== src/Prelude/Rows.antt =====
-- Rows of a table that a numeric key picks: the lookup, the update and the delete by key.
use Prim.Native.Nat.{ℕ}
use mathlib.Core.Path.{◌≡◌, refl}
use mathlib.Core.Logic.{inl, inr}
use mathlib.Core.Bool.{Bool, true, false, not, ◌&&◌}
use mathlib.Core.Option.{Option, none, some}
use mathlib.Core.List.{List, [], ◌∷◌}
use native.Mathlib.Omega.{arith}
use recruitment_platform_be.Prelude.Tests.{if◌then◌else◌, ◌==◌, ==_iff, is_some, Bool-cases}
use recruitment_platform_be.Prelude.Lists.{any, filter, find, All}

module _ {A : Type 0} (key : A → ℕ) where
  abbrev pub row : ℕ → List A → Option A
  row k = find (λ x. key x == k)

  -- `update` of the row that the primary key picks
  abbrev pub replace_row : A → List A → List A
  replace_row x [] = []
  replace_row x (y ∷ ys) =
      let rest = replace_row x ys in if key y == key x then x ∷ ys else y ∷ rest

  abbrev pub without_row : ℕ → List A → List A
  without_row k = filter (λ x. not (key x == k))

  -- A primary key is unique.
  abbrev pub IsDistinct : List A → Type 0
  IsDistinct [] = Unit {0}
  IsDistinct (x ∷ xs) = (any (λ y. key y == key x) xs ≡ false) × IsDistinct xs

  pub row-key : (k : ℕ) (x : A) (xs : List A) → row k xs ≡ some x → key x ≡ k
  row-key k x [] h = ground arith
  row-key k x (y ∷ ys) h = ground (arith, row-key k x ys, ==_iff (key y) k)

  pub row-replace_row :
      (k : ℕ) (x : A) (xs : List A)
      → row k (replace_row x xs)
        ≡ (if key x == k && is_some (row (key x) xs) then some x else row k xs)
  row-replace_row k x [] = ground arith
  row-replace_row k x (y ∷ ys) =
      ground
        (arith, row-replace_row k x ys, ==_iff (key y) (key x), ==_iff (key y) k, ==_iff (key x) k)

  pub row-without_row :
      (k j : ℕ) (xs : List A) → row k (without_row j xs) ≡ (if k == j then none else row k xs)
  row-without_row k j [] = ground arith
  row-without_row k j (y ∷ ys) =
      ground (arith, row-without_row k j ys, ==_iff (key y) j, ==_iff (key y) k, ==_iff k j)

  pub any_of_row : (k : ℕ) (xs : List A) → any (λ y. key y == k) xs ≡ is_some (row k xs)
  any_of_row k [] = refl
  any_of_row k (y ∷ ys) = ground (arith, any_of_row k ys)

  any-filter :
      (p : A → Bool) (k : ℕ) (xs : List A)
      → any (λ y. key y == k) xs ≡ false
      → any (λ y. key y == k) (filter p xs) ≡ false
  any-filter p k [] h = refl
  any-filter p k (y ∷ ys) h = ground (arith, any-filter p k ys)

  pub filter-IsDistinct : (p : A → Bool) (xs : List A) → IsDistinct xs → IsDistinct (filter p xs)
  filter-IsDistinct p [] h = tt
  filter-IsDistinct p (x ∷ xs) (other, h) = elim (Bool-cases (p x)) [
    | inl kept ↦ rw kept (any-filter p (key x) xs other, filter-IsDistinct p xs h)
    | inr dropped ↦ rw dropped (filter-IsDistinct p xs h)
  ]

  any-replace_row :
      (x : A) (k : ℕ) (xs : List A)
      → any (λ y. key y == k) (replace_row x xs) ≡ any (λ y. key y == k) xs
  any-replace_row x k [] = refl
  any-replace_row x k (y ∷ ys) = ground (arith, any-replace_row x k ys, ==_iff (key y) (key x))

  pub replace_row-IsDistinct : (x : A) (xs : List A) → IsDistinct xs → IsDistinct (replace_row x xs)
  replace_row-IsDistinct x [] h = tt
  replace_row-IsDistinct x (y ∷ ys) (other, h) = elim (Bool-cases (key y == key x)) [
    | inl same ↦ rw same (ground (arith, ==_iff (key y) (key x)), h)
    | inr different ↦
        rw different (rw (any-replace_row x (key y) ys) other, replace_row-IsDistinct x ys h)
  ]

  -- In a table with a primary key, every row is the one that its key picks.
  IsPicked : List A → List A → Type 0
  IsPicked table = All (λ x. row (key x) table ≡ some x)

  IsPicked-later :
      (y : A) (ys xs : List A)
      → any (λ z. key z == key y) xs ≡ false
      → IsPicked ys xs
      → IsPicked (y ∷ ys) xs
  unfolding IsPicked
  IsPicked-later y ys [] h p = tt
  IsPicked-later y ys (x ∷ xs) h (e, p) = (
    ground (arith, ==_iff (key y) (key x), ==_iff (key x) (key y)),
    IsPicked-later y ys xs (ground arith) p,
  )

  IsPicked-all : (xs : List A) → IsDistinct xs → IsPicked xs xs
  unfolding IsPicked
  IsPicked-all [] h = tt
  IsPicked-all (x ∷ xs) (other, h) =
      (ground (arith, ==_iff (key x) (key x)), IsPicked-later x xs xs other (IsPicked-all xs h))

  picked_filter :
      (p : A → Bool) (table xs : List A)
      → IsPicked table xs
      → All (λ x. (row (key x) table ≡ some x) × (p x ≡ true)) (filter p xs)
  unfolding IsPicked
  picked_filter p table [] h = tt
  picked_filter p table (x ∷ xs) (e, h) = elim (Bool-cases (p x)) [
    | inl kept ↦ rw kept ((e, kept), picked_filter p table xs h)
    | inr dropped ↦ rw dropped (picked_filter p table xs h)
  ]

  -- So are the rows that a query selects, which meet its condition.
  pub rows_of_filter :
      (p : A → Bool) (xs : List A)
      → IsDistinct xs
      → All (λ x. (row (key x) xs ≡ some x) × (p x ≡ true)) (filter p xs)
  rows_of_filter p xs h = picked_filter p xs xs (IsPicked-all xs h)
