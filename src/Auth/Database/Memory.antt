-- ===== src/Auth/Database/Memory.antt =====
-- Tables in memory that keep the promises.
use recruitment_platform_be.Prelude.{
  ℕ, ◌≡◌, Option, none, some, List, [], ◌∷◌, ◌==◌, ◌&&◌, is_some, if◌then◌else◌, arith, refl,
  ==_iff, Option-cases, inl, inr,
}
use recruitment_platform_be.Prelude.Action.{ok, err}
use recruitment_platform_be.Common.Database.{other_failure}
use recruitment_platform_be.Auth.Database.{
  Database, IsDatabase, AuthUser, StoredRefreshToken, StoredCode, Write, revoked?, is_of?,
}

pub record Memory : Type 0 where
  pub users : List AuthUser
  pub tokens : (token_hash : ℕ) → Option StoredRefreshToken
  pub codes : (code_hash : ℕ) → Option StoredCode

abbrev row : ℕ → List AuthUser → Option AuthUser
row k [] = none
row k (x ∷ users) = let rest = row k users in if k == x.id then some x else rest

abbrev create : (u h at : ℕ) → Memory → Write Memory
create u h at s = if is_some (s.tokens h) then (err other_failure, s) else (
  ok tt,
  record s {
    tokens = λ g.
        if g == h
        then some (record { user_id = u; token_hash = h; expires_at = at; revoked_at = none })
        else s.tokens g;
  },
)

abbrev used : (k now : ℕ) → Option StoredCode → Option StoredCode
used k now none = none
used k now (some c) = some (if c.id == k then record c { used_at = some now } else c)

abbrev mark : (k now : ℕ) → Memory → Write Memory
mark k now s = (ok tt, record s { codes = λ h. used k now (s.codes h) })

abbrev pub memory : Database Memory
memory = record {
  find_user = λ k s. row k s.users;
  save_user = λ x s. (ok tt, record s { users = x ∷ s.users });
  find_token = λ h s. s.tokens h;
  create_token = create;
  revoke_by_hash = λ u h now s. (
    ok tt,
    record s { tokens = λ g. revoked? (g == h && is_of? u (s.tokens g)) now (s.tokens g) },
  );
  revoke_all_for_user = λ u now s.
      (ok tt, record s { tokens = λ g. revoked? (is_of? u (s.tokens g)) now (s.tokens g) });
  find_email_verification = λ h s. s.codes h;
  find_password_reset = λ h s. none;
  find_login_code = λ h s. none;
  mark_code_used = mark;
  mark_login_code_used = mark;
}

row_id : (k : ℕ) (x : AuthUser) (users : List AuthUser) → row k users ≡ some x → x.id ≡ k
row_id k x [] h = ground arith
row_id k x (y ∷ users) h = ground (arith, row_id k x users, ==_iff k y.id)

pub memory-IsDatabase : IsDatabase memory
memory-IsDatabase = record {
  create_outcome = λ u h at s. elim (Option-cases (s.tokens h)) [
    | inl new ↦ rw new (refl, (λ g. refl), λ k. refl)
    | inr (t, there) ↦ rw there refl
  ];
  revoke_outcome = λ u h now s. ((λ g. refl), λ k. refl);
  revoke_all_outcome = λ u now s. ((λ g. refl), λ k. refl);
  save_user_outcome = λ x s. ((λ h. refl), λ k. refl);
  mark_code_outcome = λ k now s. ((λ h. refl), λ j. refl);
  mark_login_code_outcome = λ k now s. ((λ h. refl), λ j. refl);
  found_user = λ k x s. row_id k x s.users;
}
