-- ===== src/Prelude/Action.antt =====
-- A request handler: it reads and writes a state, and returns a value or throws. What was written
-- before a throw stays written, so that a handler changes nothing on an error has to be proved.
use mathlib.Core.Bool.{Bool, true, false}
use mathlib.Core.Option.{Option, none, some}
use mathlib.Core.Path.{◌≡◌, refl}
use mathlib.Core.Logic.{◌⊎◌, inl, inr}
use recruitment_platform_be.Prelude.Tests.{if◌then◌else◌}

pub data Result (E A : Type 0) : Type 0 where
  ok : A → Result E A
  err : E → Result E A

abbrev pub is_ok : {E A : Type 0} → Result E A → Bool
is_ok (ok a) = true
is_ok (err e) = false

abbrev pub Action : Type 0 → Type 0 → Type 0 → Type 0
Action E S A = S → Result E A × S

module _ {E S A : Type 0} where
  abbrev pub pure : A → Action E S A
  pure a s = (ok a, s)

  abbrev pub throw : E → Action E S A
  throw e s = (err e, s)

  abbrev pub gets : (S → A) → Action E S A
  gets f s = (ok (f s), s)

  -- `if (!x) throw e`
  abbrev pub or_throw : Option A → E → Action E S A
  or_throw none e = throw e
  or_throw (some a) e = pure a

  -- a call of a method of an entity, which throws or returns
  abbrev pub lift : Result E A → Action E S A
  lift r s = (r, s)

module _ {E S : Type 0} where
  abbrev pub throw_if : Bool → E → Action E S (Unit {0})
  throw_if c e s = (if c then err e else ok tt, s)

  abbrev pub modify : (S → S) → Action E S (Unit {0})
  modify f s = (ok tt, f s)

infixl 5 ◌>>=◌ ◌>>◌
abbrev pub ◌>>=◌ : {E S A B : Type 0} → Action E S A → (A → Action E S B) → Action E S B
◌>>=◌ m f s = let (r, s') = m s in elim r [ ok a ↦ f a s' | err e ↦ throw e s' ]

abbrev pub ◌>>◌ : {E S A B : Type 0} → Action E S A → Action E S B → Action E S B
m >> k = m >>= λ _. k

-- `ensureOwner`: the caller names the exception.
abbrev pub check : {E : Type 0} → Bool → E → Result E (Unit {0})
check b e = if b then ok tt else err e

pub Result-cases :
    {E A : Type 0} (r : Result E A) → ((a : A) × (r ≡ ok a)) ⊎ ((e : E) × (r ≡ err e))
Result-cases (ok a) = inl (a, refl)
Result-cases (err e) = inr (e, refl)

pub pair_of_ok : {E A W : Type 0} (p : Result E A × W) {a : A} → p.0 ≡ ok a → p ≡ (ok a, p.1)
pair_of_ok p h = λ i. (h i, p.1)
