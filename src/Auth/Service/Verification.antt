-- ===== src/Auth/Service/Verification.antt =====
-- What a verified address does to the account.
use recruitment_platform_be.Prelude.{ℕ, ◌≡◌, inl, inr, some, arith, ==_iff}
use recruitment_platform_be.Prelude.Action.{Result, ok, err, Result-cases}
use recruitment_platform_be.Common.Database.{DatabaseError}
use mathlib.Core.Path.{subst}
use recruitment_platform_be.Auth.Database.{
  Database, IsDatabase, AuthUser, StoredCode, SavedUser, active, valid_code,
}
use recruitment_platform_be.Auth.Service.{Crypto, World, verify_email}

module _ {S : Type 0} {db : Database S} (laws : IsDatabase db) (crypto : Crypto) where
  abbrev SaveLaw : AuthUser → S → Result DatabaseError (Unit {0}) → Type 0
  SaveLaw x s r = elim r [
    | ok _ ↦ SavedUser db x s (db.save_user x s).1
    | err _ ↦ (db.save_user x s).1 ≡ s
  ]

  save_user_found :
      (x : AuthUser) (s : S)
      → ((db.save_user x s).0 ≡ ok tt)
      → db.find_user x.id (db.save_user x s).1 ≡ some x
  save_user_found x s e =
      let out : SavedUser db x s (db.save_user x s).1 =
        subst (SaveLaw x s) e (laws.save_user_outcome x s) in
      ground (arith, out.1 x.id, ==_iff x.id x.id)

  -- When the command succeeds for a code of a user, whatever the status of the account, a blocked
  -- one included, the account is active and otherwise as it was.
  pub verify_email_accepted :
      (n c : ℕ) (w w' : World S) (code : StoredCode) (u : AuthUser)
      → valid_code n (db.find_email_verification (crypto.hash_token c) w.store) ≡ some code
      → db.find_user code.user_id w.store ≡ some u
      → verify_email db crypto n c w ≡ (ok tt, w')
      → db.find_user code.user_id w'.store ≡ some (record u { status = active })
  unfolding verify_email
  verify_email_accepted n c w w' code u valid there h =
      let s₁ = (db.mark_code_used code.id n w.store).1 in
      let x = record u { status = active } in
      elim (Result-cases (db.save_user x s₁).0) [
        | inl (y, e) ↦
            ground (arith, laws.found_user code.user_id u w.store there, save_user_found x s₁)
        | inr (y, e) ↦ ground arith
      ]
