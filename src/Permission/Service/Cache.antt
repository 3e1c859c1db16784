-- ===== src/Permission/Service/Cache.antt =====
-- What the guard answers from the cache of the process.
use recruitment_platform_be.Prelude.{
  ℕ, ◌≡◌, inl, inr, Bool, true, Option, none, some, List, [], ◌∷◌, ==_iff, all, includes, refl,
  unique, arith, if◌then◌else◌,
}
use recruitment_platform_be.Prelude.Action.{Result, ok, err}
use recruitment_platform_be.Common.Tables.{Database, IsDatabase}
use recruitment_platform_be.Permission.Exceptions.{PermissionException, unauthorized, forbidden}
use recruitment_platform_be.Permission.Tables.{Tables, replace_permissions}
use recruitment_platform_be.Permission.Service.{
  World, valid_entry, permissions_in, get_permissions_for_role, can_activate,
  update_role_permissions,
}

pub data Request : Type 0 where
  guarded : (now : ℕ) (required : List ℕ) (user : Option ℕ) → Request
  update : (role_id : ℕ) (permission_ids : List ℕ) → Request

module _ {S : Type 0} (db : Database S Tables) (manage : ℕ) where
  abbrev pub execute : Request → World S → World S
  execute (guarded now required user) w = (can_activate db now required user w).1
  execute (update role_id ids) w = (update_role_permissions db manage role_id ids w).1

  unfoldable pub run : List Request → World S → World S
  run [] w = w
  run (c ∷ cs) w = run cs (execute c w)

module _ {S : Type 0} (db : Database S Tables) where
  -- The guard without a cache: what the rows say at this moment.
  abbrev pub decide : (required : List ℕ) (user : Option ℕ) → S → Result PermissionException Bool
  decide [] user s = ok true
  decide (p ∷ required) none s = err unauthorized
  decide (p ∷ required) (some role) s =
      if all (λ q. includes q (permissions_in db role s)) (p ∷ required)
      then ok true
      else err forbidden

  -- The entry of a role, if there is one, holds what the rows hold.
  abbrev held : (name : ℕ) → World S → List ℕ
  held n w = elim (w.cache n) [ none ↦ permissions_in db n w.store | some e ↦ e.permissions ]

  abbrev IsCurrent : (name : ℕ) → World S → Type 0
  IsCurrent n w = held n w ≡ permissions_in db n w.store

  abbrev IsFresh : World S → Type 0
  IsFresh w = (n : ℕ) → IsCurrent n w

  get_permissions_value :
      (now n : ℕ) (w : World S)
      → IsCurrent n w
      → (get_permissions_for_role db now n w).0 ≡ ok (permissions_in db n w.store)
  unfolding get_permissions_for_role valid_entry
  get_permissions_value now n w fresh = ground arith

  get_permissions_store :
      (now n : ℕ) (w : World S) → (get_permissions_for_role db now n w).1.store ≡ w.store
  unfolding get_permissions_for_role valid_entry
  get_permissions_store now n w = ground arith

  get_permissions_keeps :
      (now n k : ℕ) (w : World S)
      → IsCurrent k w
      → IsCurrent k (get_permissions_for_role db now n w).1
  unfolding get_permissions_for_role valid_entry
  get_permissions_keeps now n k w fresh = ground (arith, ==_iff k n)

  can_activate_value :
      (now : ℕ) (required : List ℕ) (user : Option ℕ) (w : World S)
      → IsFresh w
      → (can_activate db now required user w).0 ≡ decide required user w.store
  unfolding can_activate
  can_activate_value now [] user w fresh = refl
  can_activate_value now (p ∷ required) none w fresh = refl
  can_activate_value now (p ∷ required) (some role) w fresh =
      ground (arith, get_permissions_value now role w (fresh role))

  can_activate_keeps :
      (now : ℕ) (required : List ℕ) (user : Option ℕ) (w : World S)
      → IsFresh w
      → IsFresh (can_activate db now required user w).1
  unfolding can_activate
  can_activate_keeps now [] user w fresh k = fresh k
  can_activate_keeps now (p ∷ required) none w fresh k = fresh k
  can_activate_keeps now (p ∷ required) (some role) w fresh k =
      ground (arith, get_permissions_keeps now role k w (fresh k))

  update_keeps :
      IsDatabase db
      → (manage role_id : ℕ) (ids : List ℕ) (w : World S) → IsFresh w
      → IsFresh (update_role_permissions db manage role_id ids w).1
  unfolding update_role_permissions permissions_in
  update_keeps laws manage role_id ids w fresh k =
      let change = replace_permissions role_id (unique ids) in
      elim (laws.commit_outcome change w.store) [
        | inl (went, rows) ↦ ground (arith, fresh k)
        | inr (e, failed, same) ↦ ground (arith, fresh k)
      ]

  execute_keeps :
      IsDatabase db
      → (manage : ℕ) (c : Request) (w : World S) → IsFresh w
      → IsFresh (execute db manage c w)
  execute_keeps laws manage (guarded now required user) w fresh =
      can_activate_keeps now required user w fresh
  execute_keeps laws manage (update role_id ids) w fresh =
      update_keeps laws manage role_id ids w fresh

  run_keeps :
      IsDatabase db
      → (manage : ℕ) (cs : List Request) (w : World S) → IsFresh w
      → IsFresh (run db manage cs w)
  unfolding run
  run_keeps laws manage [] w fresh = fresh
  run_keeps laws manage (c ∷ cs) w fresh =
      run_keeps laws manage cs (execute db manage c w) (execute_keeps laws manage c w fresh)

  -- A process that starts with an empty cache and is the only one to write the permissions serves
  -- guarded requests and updates of roles, one after the other, failed ones included. Then the guard
  -- decides each request, at any time, as the rows of the database say at that moment.
  pub guard_refines :
      IsDatabase db
      → (manage : ℕ) (cs : List Request) (s : S) (now : ℕ) (required : List ℕ) (user : Option ℕ)
      → (can_activate db now required user
          (run db manage cs (record { store = s; cache = λ n. none }))).0
        ≡ decide required user (run db manage cs (record { store = s; cache = λ n. none })).store
  guard_refines laws manage cs s now required user =
      can_activate_value now required user
        (run db manage cs (record { store = s; cache = λ n. none }))
        (run_keeps laws manage cs (record { store = s; cache = λ n. none }) λ k. refl)
