-- ===== src/Auth/Service/Requests.antt =====
-- Requests to the module, and that they keep a revoked token revoked.
use recruitment_platform_be.Prelude.{
  ℕ, ◌≡◌, inl, inr, true, some, List, [], ◌∷◌, arith, Option-cases,
}
use recruitment_platform_be.Prelude.Action.{Result-cases}
use recruitment_platform_be.Auth.Database.{Database, IsDatabase, AuthUser, active, valid_code}
use recruitment_platform_be.Auth.Database.Revocation.{
  is_revoked, create_keeps, revoke_keeps, revoke_all_keeps, save_user_keeps, mark_code_keeps,
  mark_login_code_keeps,
}
use recruitment_platform_be.Auth.Service.{
  Crypto, World, issue_tokens, check_refresh, rotate, refresh_tokens, exchange_social_code, logout,
  logout_all, verify_email, reset_password, change_password,
}

-- A request to the module; `sign_in` is a login of a user whom LoginQuery has found.
pub data Command : Type 0 where
  sign_in : (now fresh : ℕ) → AuthUser → Command
  refresh exchange : (now token fresh : ℕ) → Command
  leave : (now user_id token : ℕ) → Command
  leave_all : (now user_id : ℕ) → Command
  verify_it : (now code : ℕ) → Command
  reset : (now code new_password fresh : ℕ) → Command
  change : (now user_id old_password new_password fresh : ℕ) → Command

module _ {S : Type 0} (db : Database S) (crypto : Crypto) where
  -- The world after a request, whether it succeeds or fails.
  abbrev pub execute : Command → World S → World S
  execute (sign_in n f u) w = (issue_tokens db crypto n f u w).1
  execute (refresh n t f) w = (refresh_tokens db crypto n t f w).1
  execute (exchange n c f) w = (exchange_social_code db crypto n c f w).1
  execute (leave n u t) w = (logout db crypto n u t w).1
  execute (leave_all n u) w = (logout_all db crypto n u w).1
  execute (verify_it n c) w = (verify_email db crypto n c w).1
  execute (reset n c p f) w = (reset_password db crypto n c p f w).1
  execute (change n u o p f) w = (change_password db crypto n u o p f w).1

  unfoldable pub run : List Command → World S → World S
  run [] w = w
  run (c ∷ cs) w = run cs (execute c w)

module _ {S : Type 0} {db : Database S} (laws : IsDatabase db) where
  module _ (crypto : Crypto) where
    pub issue_keeps :
        (h n f : ℕ) (u : AuthUser) (w : World S)
        → is_revoked db h w.store ≡ true
        → is_revoked db h (issue_tokens db crypto n f u w).1.store ≡ true
    unfolding issue_tokens
    issue_keeps h n f u w r =
        let token = crypto.sign_refresh u n f in
        ground
          (arith, create_keeps laws h u.id (crypto.hash_token token) (crypto.decode token) w.store)

    rotate_keeps :
        (h n t f : ℕ) (u : AuthUser) (w : World S)
        → is_revoked db h w.store ≡ true
        → is_revoked db h (rotate db crypto n t f u w).1.store ≡ true
    unfolding rotate
    rotate_keeps h n t f u w r =
        let g = crypto.hash_token t in
        let s₁ = (db.revoke_by_hash u.id g n w.store).1 in
        ground (
          arith,
          revoke_keeps laws h u.id g n w.store,
          issue_keeps h n f u (record w { store = s₁ }),
        )

    pub check_refresh_store : (n t : ℕ) (w : World S) → (check_refresh db crypto n t w).1 ≡ w
    unfolding check_refresh
    check_refresh_store n t w = ground arith

    execute_keeps :
        (h : ℕ) (c : Command) (w : World S)
        → is_revoked db h w.store ≡ true
        → is_revoked db h (execute db crypto c w).store ≡ true
    unfolding refresh_tokens exchange_social_code logout logout_all verify_email reset_password
        change_password
    execute_keeps h (sign_in n f u) w r = issue_keeps h n f u w r
    execute_keeps h (refresh n t f) w r = elim (Result-cases (check_refresh db crypto n t w).0) [
      | inl (u, e) ↦ ground (arith, check_refresh_store n t w, rotate_keeps h n t f u w r)
      | inr (x, e) ↦ ground (arith, check_refresh_store n t w)
    ]
    execute_keeps h (exchange n c f) w r =
        elim (Option-cases (valid_code n (db.find_login_code (crypto.hash_token c) w.store))) [
          | inl missing ↦ ground arith
          | inr (stored, found) ↦
              let s₁ = (db.mark_login_code_used stored.id n w.store).1 in
              elim (Option-cases (db.find_user stored.user_id s₁)) [
                | inl missing ↦ ground (arith, mark_login_code_keeps laws h stored.id n w.store)
                | inr (u, there) ↦ ground (
                  arith,
                  mark_login_code_keeps laws h stored.id n w.store,
                  issue_keeps h n f u (record w { store = s₁ }),
                )
              ]
        ]
    execute_keeps h (leave n u t) w r =
        ground (arith, revoke_keeps laws h u (crypto.hash_token t) n w.store)
    execute_keeps h (leave_all n u) w r = ground (arith, revoke_all_keeps laws h u n w.store)
    execute_keeps h (verify_it n c) w r =
        elim (Option-cases
          (valid_code n (db.find_email_verification (crypto.hash_token c) w.store))) [
            | inl missing ↦ ground arith
            | inr (stored, found) ↦ elim (Option-cases (db.find_user stored.user_id w.store)) [
              | inl missing ↦ ground arith
              | inr (u, there) ↦ ground (
                arith,
                mark_code_keeps laws h stored.id n w.store,
                save_user_keeps laws h (record u { status = active })
                    (db.mark_code_used stored.id n w.store).1,
              )
            ]
          ]
    execute_keeps h (reset n c p f) w r =
        elim (Option-cases (valid_code n (db.find_password_reset (crypto.hash_token c) w.store))) [
          | inl missing ↦ ground arith
          | inr (stored, found) ↦ elim (Option-cases (db.find_user stored.user_id w.store)) [
            | inl missing ↦ ground arith
            | inr (u, there) ↦
                let x = record u { password = some (crypto.hash_password p f) } in
                let s₁ = (db.mark_code_used stored.id n w.store).1 in
                let s₂ = (db.save_user x s₁).1 in
                ground (
                  arith,
                  mark_code_keeps laws h stored.id n w.store,
                  save_user_keeps laws h x s₁,
                  revoke_all_keeps laws h u.id n s₂,
                )
          ]
        ]
    execute_keeps h (change n u o p f) w r = elim (Option-cases (db.find_user u w.store)) [
      | inl missing ↦ ground arith
      | inr (user, there) ↦
          let x = record user { password = some (crypto.hash_password p f) } in
          let s₁ = (db.save_user x w.store).1 in
          ground (arith, save_user_keeps laws h x w.store, revoke_all_keeps laws h u n s₁)
    ]

    pub run_keeps :
        (h : ℕ) (cs : List Command) (w : World S)
        → is_revoked db h w.store ≡ true
        → is_revoked db h (run db crypto cs w).store ≡ true
    unfolding run
    run_keeps h [] w r = r
    run_keeps h (c ∷ cs) w r = run_keeps h cs _ (execute_keeps h c w r)
