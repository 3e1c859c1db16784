-- ===== src/Permission/Service/Survival.antt =====
-- Whether someone is left who may administer the permissions, and what an update leaves behind.
use recruitment_platform_be.Prelude.{
  ℕ, ◌≡◌, inl, inr, Bool, true, false, not, Option, none, some, is_some, List, [], ◌∷◌, ◌++◌, ◌==◌,
  any, filter, count, includes, refl, unique, arith, Option-cases,
}
use recruitment_platform_be.Prelude.Action.{ok}
use recruitment_platform_be.Common.Tables.{Database, IsDatabase}
use recruitment_platform_be.Permission.Tables.{
  Tables, RolePermission, PermissionRecord, find_role_by_id, grants, grants_elsewhere, rows_of,
  find_id_by_name, role_grants_permission_id, count_other_roles_granting_permission_id,
  replace_permissions, find_permissions_by_role_id,
}
use recruitment_platform_be.Permission.Service.{
  World, get_permissions_for_role, can_activate, locks_out, update_role_permissions,
}
use recruitment_platform_be.Permission.Service.Cache.{Request, guarded, update, run}

abbrev grants_it : (permission_id : ℕ) → RolePermission → Bool
grants_it id g = g.permission_id == id

-- A row for this permission survives outside the role, or stands among the new ones.
any-kept :
    (id role_id : ℕ) (new : List RolePermission) (gs : List RolePermission)
    → (count (grants_elsewhere id role_id) gs == 0) ≡ false
    → any (grants_it id) (filter (λ g. not (g.role_id == role_id)) gs ++ new) ≡ true
any-kept id role_id new [] h = ground arith
any-kept id role_id new (g ∷ gs) h = ground (arith, any-kept id role_id new gs)

any-rows_of :
    (id role_id : ℕ) (ids : List ℕ) → any (grants_it id) (rows_of role_id ids) ≡ includes id ids
any-rows_of id role_id [] = refl
any-rows_of id role_id (n ∷ ids) = ground (arith, any-rows_of id role_id ids)

any-append {ℓ} :
    {A : Type ℓ} (p : A → Bool) (xs ys : List A) → any p ys ≡ true → any p (xs ++ ys) ≡ true
any-append p [] ys h = h
any-append p (x ∷ xs) ys h = ground (arith, any-append p xs ys)

-- A role that grants nothing of this permission loses no row for it.
any-untouched :
    (id role_id : ℕ) (new : List RolePermission) (gs : List RolePermission)
    → any (grants role_id id) gs ≡ false
    → any (grants_it id) gs ≡ true
    → any (grants_it id) (filter (λ g. not (g.role_id == role_id)) gs ++ new) ≡ true
any-untouched id role_id new [] h k = ground arith
any-untouched id role_id new (g ∷ gs) h k = ground (arith, any-untouched id role_id new gs)

-- Some role may administer the permissions, where the permission to do so exists.
abbrev pub is_administrable : (manage : ℕ) → Tables → Bool
is_administrable manage t = elim (find_id_by_name manage t) [
  | none ↦ true
  | some id ↦ any (λ g. g.permission_id == id) t.role_permissions
]

replaced_administrable :
    (manage role_id : ℕ) (ids : List ℕ) (t t' : Tables)
    → locks_out manage role_id ids t ≡ false
    → replace_permissions role_id ids t ≡ ok t'
    → is_administrable manage t ≡ true
    → is_administrable manage t' ≡ true
unfolding locks_out replace_permissions find_id_by_name role_grants_permission_id
    count_other_roles_granting_permission_id
replaced_administrable manage role_id ids t t' safe done before =
    elim (Option-cases (find_id_by_name manage t)) [
      | inl missing ↦ ground arith
      | inr (id, there) ↦
          let gs = t.role_permissions in
          let kept = filter (λ g. not (g.role_id == role_id)) gs in
          ground (
            arith,
            any-rows_of id role_id ids,
            any-append (grants_it id) kept (rows_of role_id ids),
            any-untouched id role_id (rows_of role_id ids) gs,
            any-kept id role_id (rows_of role_id ids) gs,
          )
    ]

module _ {S : Type 0} {db : Database S Tables} (laws : IsDatabase db) where
  guarded_store :
      (now : ℕ) (required : List ℕ) (user : Option ℕ) (w : World S)
      → (can_activate db now required user w).1.store ≡ w.store
  unfolding can_activate get_permissions_for_role
  guarded_store now [] user w = refl
  guarded_store now (p ∷ required) none w = refl
  guarded_store now (p ∷ required) (some role) w = ground arith

  update_administrable :
      (manage role_id : ℕ) (ids : List ℕ) (w : World S)
      → is_administrable manage (db.tables w.store) ≡ true
      → is_administrable manage
          (db.tables (update_role_permissions db manage role_id ids w).1.store)
        ≡ true
  unfolding update_role_permissions
  update_administrable manage role_id ids w before =
      let t = db.tables w.store in
      let change = replace_permissions role_id (unique ids) in
      let t' = db.tables (db.commit change w.store).1 in
      elim (laws.commit_outcome change w.store) [
        | inl (went, rows) ↦ ground (arith, replaced_administrable manage role_id (unique ids) t t')
        | inr (e, failed, same) ↦ ground arith
      ]

  -- After any guarded requests and updates of roles, one after the other and failed ones included,
  -- there is a role that may administer the permissions, if there was one before.
  pub run_administrable :
      (manage : ℕ) (cs : List Request) (w : World S)
      → is_administrable manage (db.tables w.store) ≡ true
      → is_administrable manage (db.tables (run db manage cs w).store) ≡ true
  unfolding run
  run_administrable manage [] w h = h
  run_administrable manage (guarded now required user ∷ cs) w h =
      let w' = (can_activate db now required user w).1 in
      run_administrable manage cs w' (rw (guarded_store now required user w) h)
  run_administrable manage (update role_id ids ∷ cs) w h =
      run_administrable manage cs (update_role_permissions db manage role_id ids w).1
        (update_administrable manage role_id ids w h)

  -- When an update succeeds, the role exists, it grants exactly the given permissions, each once,
  -- the rows of the other roles and all else are as they were, and nothing is cached.
  pub update_role_permissions_accepted :
      (manage role_id : ℕ) (ids : List ℕ) (w w' : World S) (answer : Option (List PermissionRecord))
      → update_role_permissions db manage role_id ids w ≡ (ok answer, w')
      → (db.tables w'.store ≡ record (db.tables w.store) {
        role_permissions =
            filter (λ g. not (g.role_id == role_id)) (db.tables w.store).role_permissions
            ++ rows_of role_id (unique ids);
      })
        × (is_some (find_role_by_id role_id (db.tables w.store)) ≡ true)
        × (locks_out manage role_id (unique ids) (db.tables w.store) ≡ false)
        × (answer ≡ find_permissions_by_role_id role_id (db.tables w'.store))
        × (w'.cache ≡ λ n. none)
  unfolding update_role_permissions replace_permissions
  update_role_permissions_accepted manage role_id ids w w' answer h =
      let change = replace_permissions role_id (unique ids) in
      elim (laws.commit_outcome change w.store) [
        | inl (went, rows) ↦ (ground arith, ground arith, ground arith, ground arith, ground arith)
        | inr (e, failed, same) ↦ absurd (ground arith)
      ]
