-- ===== src/Company/Handlers/Effects.antt =====
-- What each command does to the state: nothing, or one change that it commits.
use Prim.Native.String.{String}
use recruitment_platform_be.Prelude.{
  ℕ, suc, ◌≡◌, ◌⊎◌, inl, inr, Bool, true, false, none, some, ◌==◌, length, is_some, refl, arith,
  Bool-cases, Option-cases,
}
use recruitment_platform_be.Prelude.Action.{ok, err, Result-cases}
use recruitment_platform_be.Common.Tables.{Database}
use recruitment_platform_be.Common.Text.{Text}
use recruitment_platform_be.Company.Slug.{is_taken}
use recruitment_platform_be.Company.Slug.Choice.{generate_unique_slug_total}
use recruitment_platform_be.Company.Tables.{
  Company, CompanyException, company_already_exists, invalid_logo_url, Tables, is_active,
  ensure_owner, soft_delete, update_details, find_by_id, find_by_owner_id, create_with_owner_link,
  update,
}
use recruitment_platform_be.Company.Handlers.{
  create_company, insert_company, CreateCompanyInput, UpdateCompanyInput, foreign_url, slugs,
  prepare_company, update_company, delete_company,
}

module _ {S : Type 0} (db : Database S Tables) (is_owned_url : String → Bool)
    (decompose : String → Text) where
  -- Each command leaves the state as it is, or commits one change.
  pub update_company_effects :
      (o k : ℕ) (input : UpdateCompanyInput) (s : S)
      → let s' = (update_company db is_owned_url decompose o k input s).1 in
        (s' ≡ s)
        ⊎ ((y : Company) × (find_by_id k (db.tables s) ≡ some y)
            × (s' ≡ (db.commit (update (update_details input.name input.details y)) s).1))
  unfolding update_company ensure_owner
  update_company_effects o k input s = elim (Option-cases (find_by_id k (db.tables s))) [
    | inl missing ↦ inl (ground arith)
    | inr (y, found) ↦ elim (Bool-cases (y.owner_id == o)) [
      | inr foreign ↦ inl (ground arith)
      | inl own ↦ elim (Bool-cases (foreign_url is_owned_url input.details.logo_url)) [
        | inl bad ↦ inl (ground arith)
        | inr good ↦ inr (y, found, ground arith)
      ]
    ]
  ]

  pub delete_company_effects :
      (now o k : ℕ) (s : S)
      → let s' = (delete_company db now o k s).1 in
        (s' ≡ s)
        ⊎ ((y : Company) × (find_by_id k (db.tables s) ≡ some y)
            × (s' ≡ (db.commit (update (record y { deleted_at = some now })) s).1))
  unfolding delete_company ensure_owner soft_delete
  delete_company_effects now o k s = elim (Option-cases (find_by_id k (db.tables s))) [
    | inl missing ↦ inl (ground arith)
    | inr (y, found) ↦ elim (Bool-cases (y.owner_id == o)) [
      | inr foreign ↦ inl (ground arith)
      | inl own ↦ elim (Bool-cases (is_some y.deleted_at)) [
        | inl deleted ↦ inl (ground arith)
        | inr active ↦ inr (y, found, ground arith)
      ]
    ]
  ]

  -- The insert comes with a slug that no row has and for an owner without a company.
  abbrev pub Prepared : (owner_id fresh_id : ℕ) → Company → S → Type 0
  Prepared o k x s =
      (x.id ≡ k)
      × (x.owner_id ≡ o)
      × (is_active x ≡ true)
      × (is_taken x.slug (slugs (db.tables s)) ≡ false)
      × (is_some (find_by_owner_id o (db.tables s)) ≡ false)

  pub prepare_company_effects :
      (o k : ℕ) (input : CreateCompanyInput) (s : S)
      → let result = prepare_company db is_owned_url decompose o k input s in
        ((result ≡ (err company_already_exists, s))
          × (is_some (find_by_owner_id o (db.tables s)) ≡ true))
        ⊎ ((result ≡ (err invalid_logo_url, s))
            × (foreign_url is_owned_url input.details.logo_url ≡ true))
        ⊎ ((x : Company) × (result ≡ (ok x, s)) × Prepared o k x s)
  unfolding prepare_company
  prepare_company_effects o k input s =
      elim (Bool-cases (is_some (find_by_owner_id o (db.tables s)))) [
        | inl exists ↦ inl (ground arith, exists)
        | inr alone ↦ elim (Bool-cases (foreign_url is_owned_url input.details.logo_url)) [
          | inl bad ↦ inr (inl (ground arith, bad))
          | inr good ↦
              let taken = slugs (db.tables s) in
              let (slug, e, free, text) =
                generate_unique_slug_total (suc (length taken)) (decompose input.name) taken
                  (omega arith) in
              let x : Company = record {
                id = k;
                name = input.name;
                slug = slug;
                details = input.details;
                deleted_at = none;
                owner_id = o;
              } in
              inr (inr (x, ground arith, (refl, refl, refl, free, alone)))
        ]
      ]

  pub create_company_refused_early :
      (o k : ℕ) (input : CreateCompanyInput) (s : S) (e : CompanyException)
      → prepare_company db is_owned_url decompose o k input s ≡ (err e, s)
      → create_company db is_owned_url decompose o k input s ≡ (err e, s)
  unfolding create_company
  create_company_refused_early o k input s e h = ground arith

  pub create_company_inserts :
      (o k : ℕ) (input : CreateCompanyInput) (s : S) (x : Company)
      → prepare_company db is_owned_url decompose o k input s ≡ (ok x, s)
      → create_company db is_owned_url decompose o k input s
        ≡ insert_company db is_owned_url decompose x s
  unfolding create_company
  create_company_inserts o k input s x h = ground arith

  pub insert_company_state :
      (x : Company) (s : S)
      → (insert_company db is_owned_url decompose x s).1
        ≡ (db.commit (create_with_owner_link x) s).1
  unfolding insert_company
  insert_company_state x s = elim (Result-cases (db.commit (create_with_owner_link x) s).0) [
    | inl (_, went) ↦ ground arith
    | inr (e, refused) ↦ ground arith
  ]
