-- ===== src/Prelude/Lists.antt =====
-- Lists measured and searched by Boolean tests, under the library's names.
use Prim.Native.Nat.{ℕ, zero, suc, ◌+◌, ◌≤◌}
use mathlib.Core.Path.{◌≡◌, refl, ap}
use mathlib.Core.Bool.{Bool, true, false, not, ◌&&◌, ◌||◌}
use mathlib.Core.List.{List, [], ◌∷◌, ◌++◌}
use mathlib.Core.Option.{Option, none, some}
use native.Mathlib.Omega.{arith}
use recruitment_platform_be.Prelude.Tests.{if◌then◌else◌, ◌==◌}

module _ {ℓ} {A : Type ℓ} where
  abbrev pub length : List A → ℕ
  length [] = 0
  length (x ∷ xs) = suc (length xs)

  -- `xs.slice(0, n)` and `xs.slice(n)`
  abbrev pub take : ℕ → List A → List A
  take n [] = []
  take zero (x ∷ xs) = []
  take (suc n) (x ∷ xs) = x ∷ take n xs

  abbrev pub drop : ℕ → List A → List A
  drop n [] = []
  drop zero (x ∷ xs) = x ∷ xs
  drop (suc n) (x ∷ xs) = drop n xs

  pub take-append-drop : (n : ℕ) (xs : List A) → take n xs ++ drop n xs ≡ xs
  take-append-drop n [] = refl
  take-append-drop zero (x ∷ xs) = refl
  take-append-drop (suc n) (x ∷ xs) = ap (λ ys. x ∷ ys) (take-append-drop n xs)

  pub length-take : (n : ℕ) (xs : List A) → length (take n xs) ≤ n
  length-take n [] = omega arith
  length-take zero (x ∷ xs) = omega arith
  length-take (suc n) (x ∷ xs) = omega (arith, length-take n xs)

  pub length-drop : (n : ℕ) (xs : List A) → length (drop n xs) ≤ length xs
  length-drop n [] = omega arith
  length-drop zero (x ∷ xs) = omega arith
  length-drop (suc n) (x ∷ xs) = omega (arith, length-drop n xs)

  -- `xs.some(p)`
  abbrev pub any : (A → Bool) → List A → Bool
  any p [] = false
  any p (x ∷ xs) = p x || any p xs

  -- `xs.every(p)`
  abbrev pub all : (A → Bool) → List A → Bool
  all p [] = true
  all p (x ∷ xs) = p x && all p xs

  -- `xs.filter(p)`
  abbrev pub filter : (A → Bool) → List A → List A
  filter p [] = []
  filter p (x ∷ xs) = if p x then x ∷ filter p xs else filter p xs

  -- `xs.find(p)`, and a query for the row that a unique key picks
  abbrev pub find : (A → Bool) → List A → Option A
  find p [] = none
  find p (x ∷ xs) = let rest = find p xs in if p x then some x else rest

  abbrev pub count : (A → Bool) → List A → ℕ
  count p [] = 0
  count p (x ∷ xs) = let rest = count p xs in if p x then suc rest else rest

  pub count_of_not_any : (p : A → Bool) (xs : List A) → any p xs ≡ false → count p xs ≡ 0
  count_of_not_any p [] h = refl
  count_of_not_any p (x ∷ xs) h = ground (arith, count_of_not_any p xs)

  pub length-append : (xs ys : List A) → length (xs ++ ys) ≡ length xs + length ys
  length-append [] ys = omega arith
  length-append (x ∷ xs) ys = omega (arith, length-append xs ys)

  pub length-filter : (p : A → Bool) (xs : List A) → length (filter p xs) ≤ length xs
  length-filter p [] = omega arith
  length-filter p (x ∷ xs) = ground (arith, length-filter p xs)

-- `xs.includes(n)` of identifiers
abbrev pub includes : ℕ → List ℕ → Bool
includes n = any (λ m. m == n)

-- `[...new Set(ids)]`
abbrev pub unique : List ℕ → List ℕ
unique [] = []
unique (n ∷ ns) = n ∷ filter (λ m. not (m == n)) (unique ns)

abbrev pub All {ℓ κ} : {A : Type ℓ} → (A → Type κ) → List A → Type κ
All P [] = Unit
All P (x ∷ xs) = P x × All P xs
