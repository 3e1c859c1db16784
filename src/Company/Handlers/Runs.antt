-- ===== src/Company/Handlers/Runs.antt =====
-- Any sequence of commands on companies.
use Prim.Native.String.{String}
use mathlib.Core.Path.{subst}
use recruitment_platform_be.Prelude.{
  sym, ◌∙◌, ℕ, ◌≡◌, inl, inr, Bool, true, false, none, some, List, [], ◌∷◌, ◌==◌, ==_iff, ◌&&◌, any,
  find, refl, arith, Bool-cases,
}
use recruitment_platform_be.Prelude.Rows.{row, IsDistinct, row-key}
use recruitment_platform_be.Common.Tables.{Database, IsDatabase}
use recruitment_platform_be.Common.Text.{Text}
use recruitment_platform_be.Company.Tables.{
  Company, Tables, is_active, update_details, find_by_id, create_with_owner_link, update,
}
use recruitment_platform_be.Company.Handlers.{
  CreateCompanyInput, UpdateCompanyInput, create_company, update_company, delete_company,
}
use recruitment_platform_be.Company.Handlers.Effects.{
  insert_company_state, create_company_refused_early, create_company_inserts,
  prepare_company_effects, update_company_effects, delete_company_effects,
}
use recruitment_platform_be.Company.Handlers.Soundness.{
  IsCompanySound, create_with_owner_link-IsCompanySound, update-IsCompanySound,
}

pub data Command : Type 0 where
  create_it : (owner_id fresh_id : ℕ) → CreateCompanyInput → Command
  update_it : (owner_id company_id : ℕ) → UpdateCompanyInput → Command
  delete_it : (now owner_id company_id : ℕ) → Command

module _ {S : Type 0} (db : Database S Tables) (is_owned_url : String → Bool)
    (decompose : String → Text) where
  abbrev pub execute : Command → S → S
  execute (create_it o k input) s = (create_company db is_owned_url decompose o k input s).1
  execute (update_it o k input) s = (update_company db is_owned_url decompose o k input s).1
  execute (delete_it now o k) s = (delete_company db now o k s).1

  unfoldable pub run : List Command → S → S
  run [] s = s
  run (c ∷ cs) s = run cs (execute c s)

pub absent_row :
    (k : ℕ) (cs : List Company)
    → any (λ (c : Company). c.id == k) cs ≡ false
    → find (λ (c : Company). c.id == k && is_active c) cs ≡ none
absent_row k [] h = refl
absent_row k (c ∷ cs) h = ground (arith, absent_row k cs)

-- The primary key picks the row that a query for it and for not being deleted finds.
pub found_row :
    (k : ℕ) (y : Company) (cs : List Company)
    → IsDistinct (λ (c : Company). c.id) cs
    → find (λ (c : Company). c.id == k && is_active c) cs ≡ some y
    → (row (λ (c : Company). c.id) k cs ≡ some y) × (is_active y ≡ true)
found_row k y [] d h = absurd (ground arith)
found_row k y (c ∷ cs) (other, d) h = elim (Bool-cases (c.id == k)) [
  | inr different ↦ ground (arith, found_row k y cs d)
  | inl same ↦ elim (Bool-cases (is_active c)) [
    | inl active ↦ let e : some c ≡ some y = ground arith in ground arith
    | inr deleted ↦ absurd (ground (arith, absent_row k cs, ==_iff c.id k))
  ]
]

module _ {S : Type 0} {db : Database S Tables} (laws : IsDatabase db) (is_owned_url : String → Bool)
    (decompose : String → Text) where
  inserted-IsCompanySound :
      (x : Company) (s : S)
      → is_active x ≡ true
      → IsCompanySound (db.tables s)
      → IsCompanySound (db.tables (db.commit (create_with_owner_link x) s).1)
  inserted-IsCompanySound x s active sound =
      elim (laws.commit_outcome (create_with_owner_link x) s) [
        | inl (went, changed) ↦
            create_with_owner_link-IsCompanySound x (db.tables s)
              (db.tables (db.commit (create_with_owner_link x) s).1) changed active sound
        | inr (e, failed, same) ↦ rw same sound
      ]

  create_company-IsCompanySound :
      (o k : ℕ) (input : CreateCompanyInput) (s : S)
      → IsCompanySound (db.tables s)
      → IsCompanySound (db.tables (create_company db is_owned_url decompose o k input s).1)
  create_company-IsCompanySound o k input s sound =
      elim (prepare_company_effects db is_owned_url decompose o k input s) [
        | inl (e, exists) ↦
            rw (create_company_refused_early db is_owned_url decompose o k input s _ e) sound
        | inr (inl (e, bad)) ↦
            rw (create_company_refused_early db is_owned_url decompose o k input s _ e) sound
        | inr (inr (x, e, (_, _, active, _, _))) ↦
            rw
              (
                create_company_inserts db is_owned_url decompose o k input s x e,
                insert_company_state db is_owned_url decompose x s,
              )
              (inserted-IsCompanySound x s active sound)
      ]

  updated-IsCompanySound :
      (x y : Company) (k : ℕ) (s : S)
      → find_by_id k (db.tables s) ≡ some y
      → x.id ≡ y.id
      → x.owner_id ≡ y.owner_id
      → IsCompanySound (db.tables s)
      → IsCompanySound (db.tables (db.commit (update x) s).1)
  unfolding find_by_id
  updated-IsCompanySound x y k s found same_id same_owner sound =
      let (here, active) = found_row k y (db.tables s).companies sound.ids found in
      let key : y.id ≡ k = row-key (λ (c : Company). c.id) k y (db.tables s).companies here in
      elim (laws.commit_outcome (update x) s) [
        | inl (went, changed) ↦
            update-IsCompanySound x y (db.tables s) (db.tables (db.commit (update x) s).1) changed
              (subst (λ i. row (λ (c : Company). c.id) i (db.tables s).companies ≡ some y)
                (sym (same_id ∙ key)) here)
              same_owner active sound
        | inr (e, failed, same) ↦ rw same sound
      ]

  execute-IsCompanySound :
      (c : Command) (s : S)
      → IsCompanySound (db.tables s)
      → IsCompanySound (db.tables (execute db is_owned_url decompose c s))
  unfolding update_details
  execute-IsCompanySound (create_it o k input) s sound =
      create_company-IsCompanySound o k input s sound
  execute-IsCompanySound (update_it o k input) s sound =
      elim (update_company_effects db is_owned_url decompose o k input s) [
        | inl same ↦ rw same sound
        | inr (y, found, e) ↦
            let x = update_details input.name input.details y in
            rw e (updated-IsCompanySound x y k s found refl refl sound)
      ]
  execute-IsCompanySound (delete_it now o k) s sound =
      elim (delete_company_effects db is_owned_url decompose now o k s) [
        | inl same ↦ rw same sound
        | inr (y, found, e) ↦
            let x : Company = record y { deleted_at = some now } in
            rw e (updated-IsCompanySound x y k s found refl refl sound)
      ]

  -- After any commands, one after the other and failed ones included: identifiers and slugs are
  -- unique, an owner has at most one company that is not deleted, and the account of its owner is
  -- linked to it, if that was so before.
  pub run-IsCompanySound :
      (cs : List Command) (s : S)
      → IsCompanySound (db.tables s)
      → IsCompanySound (db.tables (run db is_owned_url decompose cs s))
  unfolding run
  run-IsCompanySound [] s sound = sound
  run-IsCompanySound (c ∷ cs) s sound =
      run-IsCompanySound cs (execute db is_owned_url decompose c s)
        (execute-IsCompanySound c s sound)
