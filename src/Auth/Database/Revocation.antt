-- ===== src/Auth/Database/Revocation.antt =====
-- A refresh token that is revoked stays so under every write to the tables.
use recruitment_platform_be.Prelude.{
  ℕ, ◌≡◌, inl, inr, Bool, true, false, none, some, is_some, arith, ==_iff,
}
use recruitment_platform_be.Auth.Database.{
  Database, IsDatabase, AuthUser, wrote, Created, RevokedOne, RevokedAll, SavedUser, MarkedUsed,
}

module _ {S : Type 0} (db : Database S) where
  -- The token of this hash is revoked.
  abbrev pub is_revoked : (token_hash : ℕ) → S → Bool
  is_revoked h s = elim (db.find_token h s) [ some t ↦ is_some t.revoked_at | none ↦ false ]

module _ {S : Type 0} {db : Database S} (laws : IsDatabase db) where
  -- The writes that leave it revoked.
  pub create_keeps :
      (h u g at : ℕ) (s : S)
      → is_revoked db h s ≡ true
      → is_revoked db h (db.create_token u g at s).1 ≡ true
  create_keeps h u g at s r =
      elim (wrote db s (db.create_token u g at s) (Created db u g at s (db.create_token u g at s).1)
        (laws.create_outcome u g at s)) [
          | inl (new, rows, users) ↦ ground (arith, new, rows h, ==_iff h g)
          | inr same ↦ rw same r
        ]

  pub revoke_keeps :
      (h u g now : ℕ) (s : S)
      → is_revoked db h s ≡ true
      → is_revoked db h (db.revoke_by_hash u g now s).1 ≡ true
  revoke_keeps h u g now s r =
      elim (wrote db s (db.revoke_by_hash u g now s)
        (RevokedOne db u g now s (db.revoke_by_hash u g now s).1) (laws.revoke_outcome u g now s)) [
          | inl (rows, users) ↦ ground (arith, rows h)
          | inr same ↦ rw same r
        ]

  pub revoke_all_keeps :
      (h u now : ℕ) (s : S)
      → is_revoked db h s ≡ true
      → is_revoked db h (db.revoke_all_for_user u now s).1 ≡ true
  revoke_all_keeps h u now s r =
      elim (wrote db s (db.revoke_all_for_user u now s)
        (RevokedAll db u now s (db.revoke_all_for_user u now s).1)
        (laws.revoke_all_outcome u now s)) [
          | inl (rows, users) ↦ ground (arith, rows h)
          | inr same ↦ rw same r
        ]

  pub save_user_keeps :
      (h : ℕ) (x : AuthUser) (s : S)
      → is_revoked db h s ≡ true
      → is_revoked db h (db.save_user x s).1 ≡ true
  save_user_keeps h x s r =
      elim (wrote db s (db.save_user x s) (SavedUser db x s (db.save_user x s).1)
        (laws.save_user_outcome x s)) [
          | inl (rows, users) ↦ ground (arith, rows h)
          | inr same ↦ rw same r
        ]

  pub mark_code_keeps :
      (h k now : ℕ) (s : S)
      → is_revoked db h s ≡ true
      → is_revoked db h (db.mark_code_used k now s).1 ≡ true
  mark_code_keeps h k now s r =
      elim (wrote db s (db.mark_code_used k now s) (MarkedUsed db s (db.mark_code_used k now s).1)
        (laws.mark_code_outcome k now s)) [
          | inl (rows, users) ↦ ground (arith, rows h)
          | inr same ↦ rw same r
        ]

  pub mark_login_code_keeps :
      (h k now : ℕ) (s : S)
      → is_revoked db h s ≡ true
      → is_revoked db h (db.mark_login_code_used k now s).1 ≡ true
  mark_login_code_keeps h k now s r =
      elim (wrote db s (db.mark_login_code_used k now s)
        (MarkedUsed db s (db.mark_login_code_used k now s).1)
        (laws.mark_login_code_outcome k now s)) [
          | inl (rows, users) ↦ ground (arith, rows h)
          | inr same ↦ rw same r
        ]
