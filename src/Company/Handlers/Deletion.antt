-- ===== src/Company/Handlers/Deletion.antt =====
-- What is left of a company that its owner has deleted.
use mathlib.Core.Path.{subst}
use recruitment_platform_be.Prelude.{
  sym, ℕ, ◌≡◌, inl, inr, true, false, none, some, List, [], ◌∷◌, ◌==◌, ==_iff, ◌&&◌, find, is_some,
  refl, arith, Bool-cases, Option-cases,
}
use recruitment_platform_be.Prelude.Rows.{row, replace_row, IsDistinct, row-key}
use recruitment_platform_be.Prelude.Action.{ok}
use recruitment_platform_be.Common.Tables.{Database, IsDatabase}
use recruitment_platform_be.Company.Tables.{
  Company, Owner, Tables, is_active, ensure_owner, soft_delete, find_by_id, update,
  get_recruiter_company_id,
}
use recruitment_platform_be.Company.Handlers.{delete_company}
use recruitment_platform_be.Company.Handlers.Soundness.{
  IsCompanySound, points_to, is_linked, all_of_row,
}
use recruitment_platform_be.Company.Handlers.Runs.{absent_row, found_row}

find-replaced :
    (x : Company) (cs : List Company)
    → IsDistinct (λ (c : Company). c.id) cs
    → is_active x ≡ false
    → find (λ c. c.id == x.id && is_active c) (replace_row (λ c. c.id) x cs) ≡ none
find-replaced x [] d h = refl
find-replaced x (c ∷ cs) (other, d) h = elim (Bool-cases (c.id == x.id)) [
  | inl same ↦ ground (arith, ==_iff c.id x.id, absent_row x.id cs)
  | inr different ↦ ground (arith, find-replaced x cs d)
]

update_deleted :
    (x : Company) (t t' : Tables)
    → IsCompanySound t
    → is_active x ≡ false
    → update x t ≡ ok t'
    → (find_by_id x.id t' ≡ none) × (t'.users ≡ t.users)
unfolding update find_by_id
update_deleted x t t' sound gone e =
    let new : Tables = record t { companies = replace_row (λ c. c.id) x t.companies } in
    let same : t' ≡ new = ground arith in rw same (find-replaced x t.companies sound.ids gone, refl)

linked_lookup :
    (k o : ℕ) (users : List Owner)
    → points_to k (row (λ u. u.id) o users) ≡ true
    → get_recruiter_company_id o users ≡ some k
unfolding get_recruiter_company_id
linked_lookup k o users h = elim (Option-cases (row (λ (u : Owner). u.id) o users)) [
  | inl missing ↦ absurd (ground arith)
  | inr (u, there) ↦ elim (Option-cases u.company_id) [
    | inl free ↦ absurd (ground arith)
    | inr (c, held) ↦ ground (arith, ==_iff c k)
  ]
]

module _ {S : Type 0} {db : Database S Tables} (laws : IsDatabase db) where
  delete_company_commits :
      (now o k : ℕ) (s s' : S)
      → delete_company db now o k s ≡ (ok tt, s')
      → (y : Company) × (find_by_id k (db.tables s) ≡ some y)
        × (y.owner_id ≡ o)
        × ((db.commit (update (record y { deleted_at = some now })) s).0 ≡ ok tt)
        × ((db.commit (update (record y { deleted_at = some now })) s).1 ≡ s')
  unfolding delete_company ensure_owner soft_delete
  delete_company_commits now o k s s' h = elim (Option-cases (find_by_id k (db.tables s))) [
    | inl missing ↦ absurd (ground arith)
    | inr (y, found) ↦ elim (Bool-cases (y.owner_id == o)) [
      | inr foreign ↦ absurd (ground arith)
      | inl own ↦ elim (Bool-cases (is_some y.deleted_at)) [
        | inl deleted ↦ absurd (ground arith)
        | inr active ↦
            let x : Company = record y { deleted_at = some now } in
            elim (laws.commit_outcome (update x) s) [
              | inl (went, changed) ↦
                  (y, found, ground (arith, ==_iff y.owner_id o), went, ground arith)
              | inr (e, refused, same) ↦ absurd (ground arith)
            ]
      ]
    ]
  ]

  found_by_id :
      (k : ℕ) (y : Company) (s : S)
      → IsCompanySound (db.tables s)
      → find_by_id k (db.tables s) ≡ some y
      → (row (λ c. c.id) k (db.tables s).companies ≡ some y) × (is_active y ≡ true)
  unfolding find_by_id
  found_by_id k y s sound found = found_row k y (db.tables s).companies sound.ids found

  -- Where the account of every owner is linked to the company that is not deleted, and identifiers and
  -- slugs are unique: a company that its owner has deleted is found no more, but the account keeps
  -- its link, and the lookup of the job module still answers with the deleted company.
  pub delete_company_accepted :
      (now o k : ℕ) (s s' : S)
      → IsCompanySound (db.tables s)
      → delete_company db now o k s ≡ (ok tt, s')
      → (find_by_id k (db.tables s') ≡ none)
        × (get_recruiter_company_id o (db.tables s').users ≡ some k)
  delete_company_accepted now o k s s' sound h =
      let (y, found, owner, went, after) = delete_company_commits now o k s s' h in
      let x : Company = record y { deleted_at = some now } in
      let (here, active) = found_by_id k y s sound found in
      let key : y.id ≡ k = row-key (λ (c : Company). c.id) k y (db.tables s).companies here in
      let linked : is_linked (db.tables s).users y ≡ true =
        all_of_row (is_linked (db.tables s).users) k y (db.tables s).companies sound.linked here in
      elim (laws.commit_outcome (update x) s) [
        | inr (e, refused, same) ↦ absurd (ground arith)
        | inl (ok', changed) ↦
            let (gone, users) = update_deleted x (db.tables s) _ sound refl changed in
            let kept : (db.tables s').users ≡ (db.tables s).users =
              subst (λ r. (db.tables r).users ≡ (db.tables s).users) after users in
            let link : points_to y.id (row (λ (u : Owner). u.id) y.owner_id (db.tables s).users)
                ≡ true =
              ground arith in
            let own_link : points_to y.id (row (λ (u : Owner). u.id) o (db.tables s).users) ≡ true =
              subst (λ a. points_to y.id (row (λ (u : Owner). u.id) a (db.tables s).users) ≡ true)
                owner link in
            (
              subst (λ i. find_by_id i (db.tables s') ≡ none) key
                  (subst (λ r. find_by_id y.id (db.tables r) ≡ none) after gone),
              linked_lookup k o (db.tables s').users (
                  subst (λ us. points_to k (row (λ (u : Owner). u.id) o us) ≡ true) (sym kept)
                    (subst
                      (λ i. points_to i (row (λ (u : Owner). u.id) o (db.tables s).users) ≡ true)
                      key own_link)),
            )
      ]
