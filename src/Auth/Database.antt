-- ===== src/Auth/Database.antt =====
-- What the auth module asks of its tables (src/modules/auth/infrastructure/persistence and the adapter
-- of the user repository). The database is a parameter: `S` is its state, and `IsDatabase` says what
-- it promises of the refresh tokens and the users. Tokens, codes and hashes are numbers.
pub mod Memory
pub mod Revocation
use Prim.Native.String.{String}
use recruitment_platform_be.Prelude.{
  ℕ, ◌≡◌, ◌⊎◌, inl, inr, Bool, true, false, Option, none, some, ◌==◌, ◌&&◌, ◌||◌, not, ltb, is_some,
  if◌then◌else◌,
}
use recruitment_platform_be.Prelude.Action.{Result, ok, err}
use recruitment_platform_be.Common.Database.{DatabaseError}

pub data UserStatus : Type 0 where
  pending active blocked : UserStatus

pub record AuthUser : Type 0 where
  pub id : ℕ
  pub email : String
  pub password : Option ℕ
  pub role : String
  pub status : UserStatus

-- The row's own identifier is not used.
pub record StoredRefreshToken : Type 0 where
  pub user_id : ℕ
  pub token_hash : ℕ
  pub expires_at : ℕ
  pub revoked_at : Option ℕ

-- A verification token, or a login code of a social login. A lookup is by hash and type, so neither
-- is kept in the row.
pub record StoredCode : Type 0 where
  pub id : ℕ
  pub user_id : ℕ
  pub expires_at : ℕ
  pub used_at : Option ℕ

abbrev pub Write : Type 0 → Type 0
Write S = Result DatabaseError (Unit {0}) × S

pub record Database (S : Type 0) : Type 0 where
  pub find_user : (id : ℕ) → S → Option AuthUser
  pub save_user : AuthUser → S → Write S
  pub find_token : (token_hash : ℕ) → S → Option StoredRefreshToken
  pub create_token : (user_id token_hash expires_at : ℕ) → S → Write S
  pub revoke_by_hash : (user_id token_hash now : ℕ) → S → Write S
  pub revoke_all_for_user : (user_id now : ℕ) → S → Write S
  pub find_email_verification : (code_hash : ℕ) → S → Option StoredCode
  pub find_password_reset : (code_hash : ℕ) → S → Option StoredCode
  pub find_login_code : (code_hash : ℕ) → S → Option StoredCode
  pub mark_code_used : (id now : ℕ) → S → Write S
  pub mark_login_code_used : (id now : ℕ) → S → Write S

-- `findValidByHash` of the refresh tokens
unfoldable pub valid_token : (now : ℕ) → Option StoredRefreshToken → Option StoredRefreshToken
valid_token now none = none
valid_token now (some t) = if is_some t.revoked_at || ltb t.expires_at now then none else some t

-- `findValidByHash` of the codes
unfoldable pub valid_code : (now : ℕ) → Option StoredCode → Option StoredCode
valid_code now none = none
valid_code now (some c) = if is_some c.used_at || ltb c.expires_at now then none else some c

-- `updateMany`: the rows that are not revoked yet
abbrev pub revoked : (now : ℕ) → StoredRefreshToken → StoredRefreshToken
revoked now t = if is_some t.revoked_at then t else record t { revoked_at = some now }

abbrev pub revoked? : Bool → (now : ℕ) → Option StoredRefreshToken → Option StoredRefreshToken
revoked? here now none = none
revoked? here now (some t) = some (if here then revoked now t else t)

abbrev pub is_of? : (user_id : ℕ) → Option StoredRefreshToken → Bool
is_of? u none = false
is_of? u (some t) = t.user_id == u

module _ {S : Type 0} (db : Database S) where
  open db use {find_user, find_token}

  abbrev pub IsSameTokens : S → S → Type 0
  IsSameTokens s s' = (h : ℕ) → find_token h s' ≡ find_token h s

  abbrev pub IsSameUsers : S → S → Type 0
  IsSameUsers s s' = (k : ℕ) → find_user k s' ≡ find_user k s

  -- A write that fails changes nothing.
  abbrev pub Wrote : S → Write S → Type 0 → Type 0
  Wrote s w Done = elim w.0 [ ok _ ↦ Done | err e ↦ w.1 ≡ s ]

  -- tokenHash @unique
  abbrev pub Created : (u h at : ℕ) → S → S → Type 0
  Created u h at s s' =
      (find_token h s ≡ none)
      × ((g : ℕ)
          → find_token g s' ≡ (
              if g == h
              then some (record { user_id = u; token_hash = h; expires_at = at; revoked_at = none })
              else find_token g s))
      × IsSameUsers s s'

  abbrev pub RevokedOne : (u h now : ℕ) → S → S → Type 0
  RevokedOne u h now s s' =
      ((g : ℕ)
        → find_token g s' ≡ revoked? (g == h && is_of? u (find_token g s)) now (find_token g s))
      × IsSameUsers s s'

  abbrev pub RevokedAll : (u now : ℕ) → S → S → Type 0
  RevokedAll u now s s' =
      ((g : ℕ) → find_token g s' ≡ revoked? (is_of? u (find_token g s)) now (find_token g s))
      × IsSameUsers s s'

  abbrev pub SavedUser : AuthUser → S → S → Type 0
  SavedUser x s s' =
      IsSameTokens s s' × ((k : ℕ) → find_user k s' ≡ (if k == x.id then some x else find_user k s))

  abbrev pub MarkedUsed : S → S → Type 0
  MarkedUsed s s' = IsSameTokens s s' × IsSameUsers s s'

  pub record IsDatabase : Type 0 where
    pub create_outcome :
        (u h at : ℕ) (s : S)
        → Wrote s (db.create_token u h at s) (Created u h at s (db.create_token u h at s).1)
    pub revoke_outcome :
        (u h now : ℕ) (s : S)
        → Wrote s
            (db.revoke_by_hash u h now s)
            (RevokedOne u h now s (db.revoke_by_hash u h now s).1)
    pub revoke_all_outcome :
        (u now : ℕ) (s : S)
        → Wrote s
            (db.revoke_all_for_user u now s)
            (RevokedAll u now s (db.revoke_all_for_user u now s).1)
    pub save_user_outcome :
        (x : AuthUser) (s : S) → Wrote s (db.save_user x s) (SavedUser x s (db.save_user x s).1)
    pub mark_code_outcome :
        (k now : ℕ) (s : S)
        → Wrote s (db.mark_code_used k now s) (MarkedUsed s (db.mark_code_used k now s).1)
    pub mark_login_code_outcome :
        (k now : ℕ) (s : S)
        → Wrote s
            (db.mark_login_code_used k now s)
            (MarkedUsed s (db.mark_login_code_used k now s).1)
    pub found_user : (k : ℕ) (x : AuthUser) (s : S) → find_user k s ≡ some x → x.id ≡ k

  -- A write has done its work, or the database is as it was.
  pub wrote : (s : S) (w : Write S) (Done : Type 0) → Wrote s w Done → Done ⊎ (w.1 ≡ s)
  wrote s (ok _, s') Done h = inl h
  wrote s (err e, s') Done h = inr h
