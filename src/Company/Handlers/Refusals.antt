-- ===== src/Company/Handlers/Refusals.antt =====
-- What a refused company says.
use Prim.Native.String.{String}
use mathlib.Core.Path.{subst}
use recruitment_platform_be.Prelude.{
  ℕ, ◌≡◌, ◌⊎◌, inl, inr, Bool, true, false, none, List, [], ◌∷◌, map, any, find, is_some, ap, sym,
  ◌∙◌, refl, arith, Bool-cases,
}
use recruitment_platform_be.Prelude.Rows.{row}
use recruitment_platform_be.Prelude.Action.{err}
use recruitment_platform_be.Common.Tables.{Database, IsDatabase, CommitError, violates, failed}
use recruitment_platform_be.Common.Text.{Text}
use recruitment_platform_be.Company.Slug.{same_text, is_taken}
use recruitment_platform_be.Company.Tables.{
  Company, CompanyException, company_already_exists, company_slug_taken, invalid_logo_url,
  unexpected, Tables, is_active_of, find_by_owner_id, create_with_owner_link,
}
use recruitment_platform_be.Company.Handlers.{
  CreateCompanyInput, foreign_url, slugs, blame, insert_company, create_company,
}
use recruitment_platform_be.Company.Handlers.Effects.{
  create_company_refused_early, create_company_inserts, prepare_company_effects,
}

is_some-find : (p : Company → Bool) (cs : List Company) → is_some (find p cs) ≡ any p cs
is_some-find p [] = refl
is_some-find p (c ∷ cs) = ground (arith, is_some-find p cs)

any-slugs :
    (slug : Text) (cs : List Company)
    → is_taken slug (map (λ c. c.slug) cs) ≡ any (λ c. same_text c.slug slug) cs
any-slugs slug [] = refl
any-slugs slug (c ∷ cs) = ground (arith, any-slugs slug cs)

-- The constraints that the insert of a company can violate.
create_with_owner_link_violates :
    (x : Company) (t : Tables) (constraint : String)
    → create_with_owner_link x t ≡ err (violates constraint)
    → row (λ c. c.id) x.id t.companies ≡ none
    → ((constraint ≡ "companies_slug_key") × (is_taken x.slug (slugs t) ≡ true))
      ⊎ ((constraint ≡ "companies_owner_id_active_unique")
          × (is_some (find_by_owner_id x.owner_id t) ≡ true))
unfolding create_with_owner_link find_by_owner_id
create_with_owner_link_violates x t constraint h absent =
    elim (Bool-cases (any (λ c. same_text c.slug x.slug) t.companies)) [
      | inl taken ↦ inl (ground arith, ground (arith, any-slugs x.slug t.companies))
      | inr free ↦
          inr (ground arith, ground (arith, is_some-find (is_active_of x.owner_id) t.companies))
    ]

module _ {S : Type 0} {db : Database S Tables} (laws : IsDatabase db) (is_owned_url : String → Bool)
    (decompose : String → Text) where
  -- A refused insert, whatever other requests have done since the checks: nothing has changed, and
  -- it is blamed on the slug only if a company has it, on a company of the owner only if there is
  -- one that is not deleted, and is unexpected only if the database failed and blamed no constraint.
  pub insert_company_refused :
      (x : Company) (s s' : S) (e : CompanyException)
      → row (λ c. c.id) x.id (db.tables s).companies ≡ none
      → insert_company db is_owned_url decompose x s ≡ (err e, s')
      → (db.tables s' ≡ db.tables s)
        × (((e ≡ company_slug_taken) × (is_taken x.slug (slugs (db.tables s)) ≡ true))
            ⊎ ((e ≡ company_already_exists)
                × (is_some (find_by_owner_id x.owner_id (db.tables s)) ≡ true))
            ⊎ ((e ≡ unexpected) × ((db.commit (create_with_owner_link x) s).0 ≡ err failed)))
  unfolding insert_company
  insert_company_refused x s s' e absent h =
      elim (laws.commit_outcome (create_with_owner_link x) s) [
        | inl (went, changed) ↦ absurd (ground arith)
        | inr (f, refused, same) ↦ (ground arith, blamed f refused)
      ]
    where
      blamed :
          (f : CommitError)
          → (db.commit (create_with_owner_link x) s).0 ≡ err f
          → ((e ≡ company_slug_taken) × (is_taken x.slug (slugs (db.tables s)) ≡ true))
            ⊎ ((e ≡ company_already_exists)
                × (is_some (find_by_owner_id x.owner_id (db.tables s)) ≡ true))
            ⊎ ((e ≡ unexpected) × ((db.commit (create_with_owner_link x) s).0 ≡ err failed))
      blamed failed refused = inr (inr (ground arith, refused))
      blamed (violates constraint) refused =
          elim (create_with_owner_link_violates x (db.tables s) constraint
            (laws.commit_violates (create_with_owner_link x) s constraint refused) absent) [
              | inl (name, taken) ↦
                  let named : blame (violates constraint) ≡ company_slug_taken =
                    ap (λ c. blame (violates c)) name in
                  inl (ground arith, taken)
              | inr (name, exists) ↦
                  let named : blame (violates constraint) ≡ company_already_exists =
                    ap (λ c. blame (violates c)) name in
                  inr (inl (ground arith, exists))
            ]

  -- One after the other, a company that comes with a new identifier is refused because its owner has
  -- one that is not deleted, because its logo is not a file of the storage, or because the database
  -- fails to insert it, with a slug that is free, and blames no constraint; never because of its slug,
  -- and nothing has changed.
  pub create_company_refused :
      (o k : ℕ) (input : CreateCompanyInput) (s s' : S) (e : CompanyException)
      → row (λ c. c.id) k (db.tables s).companies ≡ none
      → create_company db is_owned_url decompose o k input s ≡ (err e, s')
      → (db.tables s' ≡ db.tables s)
        × (((e ≡ company_already_exists) × (is_some (find_by_owner_id o (db.tables s)) ≡ true))
            ⊎ ((e ≡ invalid_logo_url) × (foreign_url is_owned_url input.details.logo_url ≡ true))
            ⊎ ((e ≡ unexpected)
                × (x : Company) × (x.id ≡ k)
                × (x.owner_id ≡ o)
                × (is_taken x.slug (slugs (db.tables s)) ≡ false)
                × ((db.commit (create_with_owner_link x) s).0 ≡ err failed)))
  create_company_refused o k input s s' e absent h =
      elim (prepare_company_effects db is_owned_url decompose o k input s) [
        | inl (p, exists) ↦
            let early = create_company_refused_early db is_owned_url decompose o k input s _ p in
            (ground arith, inl (ground arith, exists))
        | inr (inl (p, bad)) ↦
            let early = create_company_refused_early db is_owned_url decompose o k input s _ p in
            (ground arith, inr (inl (ground arith, bad)))
        | inr (inr (x, p, (new, owner, _, free, alone))) ↦
            let inserted = create_company_inserts db is_owned_url decompose o k input s x p in
            let absent' =
              subst (λ i. row (λ (c : Company). c.id) i (db.tables s).companies ≡ none) (sym new)
                absent in
            let (same, blamed) = insert_company_refused x s s' e absent' (sym inserted ∙ h) in
            (
              same,
              elim blamed [
                | inl (_, taken) ↦ absurd (ground arith)
                | inr (inl (_, exists)) ↦ absurd (ground arith)
                | inr (inr (other, refused)) ↦ inr (inr (other, x, new, owner, free, refused))
              ],
            )
      ]
