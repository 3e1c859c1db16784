-- ===== src/Auth/Service/Rotation.antt =====
-- A refresh token is used at most once.
use mathlib.Core.Path.{subst}
use recruitment_platform_be.Prelude.{
  ℕ, ◌≡◌, inl, inr, true, false, List, arith, Option-cases, ==_iff,
}
use recruitment_platform_be.Prelude.Action.{Result, ok, err, is_ok, Result-cases}
use recruitment_platform_be.Common.Database.{DatabaseError}
use recruitment_platform_be.Auth.Database.{
  Database, IsDatabase, AuthUser, RevokedOne, is_of?, valid_token,
}
use recruitment_platform_be.Auth.Database.Revocation.{is_revoked}
use recruitment_platform_be.Auth.Service.{
  Crypto, Tokens, World, check_refresh, rotate, refresh_tokens,
}
use recruitment_platform_be.Auth.Service.Requests.{
  Command, run, issue_keeps, check_refresh_store, run_keeps,
}

module _ {S : Type 0} {db : Database S} (laws : IsDatabase db) where
  module _ (crypto : Crypto) where
    revoked_refused :
        (n t f : ℕ) (w : World S)
        → is_revoked db (crypto.hash_token t) w.store ≡ true
        → is_ok (refresh_tokens db crypto n t f w).0 ≡ false
    unfolding refresh_tokens check_refresh valid_token
    revoked_refused n t f w r = ground arith

    -- The user that the check finds owns the row of the token.
    check_refresh_owner :
        (n t : ℕ) (w : World S) (u : AuthUser)
        → (check_refresh db crypto n t w).0 ≡ ok u
        → is_of? u.id (db.find_token (crypto.hash_token t) w.store) ≡ true
    unfolding check_refresh valid_token
    check_refresh_owner n t w u e = elim (Option-cases (crypto.verify n t)) [
      | inl bad ↦ ground arith
      | inr (k, verified) ↦ elim (Option-cases (db.find_token (crypto.hash_token t) w.store)) [
        | inl missing ↦ ground arith
        | inr (stored, found) ↦ elim (Option-cases (db.find_user k w.store)) [
          | inl missing ↦ ground arith
          | inr (x, there) ↦ ground (
            arith,
            laws.found_user k x w.store there,
            ==_iff stored.user_id k,
            ==_iff stored.user_id u.id,
          )
        ]
      ]
    ]

    abbrev RevokeLaw : (u g n : ℕ) → S → Result DatabaseError (Unit {0}) → Type 0
    RevokeLaw u g n s r = elim r [
      | ok _ ↦ RevokedOne db u g n s (db.revoke_by_hash u g n s).1
      | err _ ↦ (db.revoke_by_hash u g n s).1 ≡ s
    ]

    revoke_revokes :
        (u g n : ℕ) (s : S)
        → is_of? u (db.find_token g s) ≡ true
        → is_ok (db.revoke_by_hash u g n s).0 ≡ true
        → is_revoked db g (db.revoke_by_hash u g n s).1 ≡ true
    revoke_revokes u g n s mine done = elim (Result-cases (db.revoke_by_hash u g n s).0) [
      | inl (x, e) ↦
          let out : RevokedOne db u g n s (db.revoke_by_hash u g n s).1 =
            subst (RevokeLaw u g n s) e (laws.revoke_outcome u g n s) in
          ground (arith, out.0 g, ==_iff g g)
      | inr (x, e) ↦ ground arith
    ]

    refresh_revokes :
        (n t f : ℕ) (w w' : World S) (pair : Tokens)
        → refresh_tokens db crypto n t f w ≡ (ok pair, w')
        → is_revoked db (crypto.hash_token t) w'.store ≡ true
    unfolding refresh_tokens rotate
    refresh_revokes n t f w w' pair h = elim (Result-cases (check_refresh db crypto n t w).0) [
      | inl (u, e) ↦
          let g = crypto.hash_token t in
          let s₁ = (db.revoke_by_hash u.id g n w.store).1 in
          ground (
            arith,
            check_refresh_store laws crypto n t w,
            check_refresh_owner n t w u e,
            revoke_revokes u.id g n w.store,
            issue_keeps laws crypto g n f u (record w { store = s₁ }),
          )
      | inr (x, e) ↦ ground arith
    ]

    -- A refresh token that was exchanged for a new pair is refused from then on, whatever requests
    -- are served in between, one after the other.
    pub refresh_tokens_once :
        (n t f : ℕ) (w w' : World S) (pair : Tokens) (cs : List Command) (n' f' : ℕ)
        → refresh_tokens db crypto n t f w ≡ (ok pair, w')
        → is_ok (refresh_tokens db crypto n' t f' (run db crypto cs w')).0 ≡ false
    refresh_tokens_once n t f w w' pair cs n' f' h =
        revoked_refused n' t f' (run db crypto cs w')
          (run_keeps laws crypto (crypto.hash_token t) cs w' (refresh_revokes n t f w w' pair h))
