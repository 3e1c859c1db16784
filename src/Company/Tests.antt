-- ===== src/Company/Tests.antt =====
-- Companies on concrete rows, and the theorems at them.
use Prim.Native.String.{String}
use recruitment_platform_be.Prelude.{
  ◌≡◌, ◌⊎◌, refl, arith, Bool, true, false, none, some, List, [], ◌∷◌, is_some,
}
use recruitment_platform_be.Prelude.Action.{ok, err}
use recruitment_platform_be.Common.Tables.{failed, memory, memory-IsDatabase}
use recruitment_platform_be.Common.Text.{Text, units}
use recruitment_platform_be.Company.Slug.{
  slug_base, decimal, numbered, is_taken, generate_unique_slug, next_free,
}
use recruitment_platform_be.Company.Slug.Choice.{is_slug_text, generate_unique_slug_total}
use recruitment_platform_be.Company.Tables.{
  company_already_exists, company_slug_taken, invalid_logo_url, unexpected, Details, Company,
  Tables, ensure_owner, soft_delete, update_details, find_by_id, find_by_owner_id,
  create_with_owner_link, update, get_recruiter_company_id,
}
use recruitment_platform_be.Company.Handlers.{
  CreateCompanyInput, slugs, foreign_url, prepare_company, insert_company, create_company,
  update_company, delete_company,
}
use recruitment_platform_be.Company.Handlers.Soundness.{IsCompanySound}
use recruitment_platform_be.Company.Handlers.Runs.{
  Command, create_it, update_it, delete_it, run, run-IsCompanySound,
}
use recruitment_platform_be.Company.Handlers.Refusals.{
  insert_company_refused, create_company_refused,
}
use recruitment_platform_be.Company.Handlers.Deletion.{delete_company_accepted}

code : Unit {0}
unfolding slug_base decimal numbered next_free generate_unique_slug ensure_owner soft_delete
    update_details find_by_id find_by_owner_id create_with_owner_link update prepare_company
    insert_company create_company update_company delete_company run
code = tt

three_bases :
    (slug_base (units "  acme -- co., ltd!") ≡ units "acme-co-ltd") × (slug_base (units "???") ≡ [])
unfolding code
three_bases = (refl, refl)

abbrev taken : List Text
taken = units "acme" ∷ units "acme-2" ∷ []

third : generate_unique_slug 3 (units "acme") taken ≡ some (units "acme-3")
unfolding code
third = refl

generate_unique_slug_total_example :
    (slug : Text) × (generate_unique_slug 3 (units "acme") taken ≡ some slug)
    × (is_taken slug taken ≡ false)
    × (is_slug_text slug ≡ true)
generate_unique_slug_total_example = generate_unique_slug_total 3 (units "acme") taken (omega arith)

abbrev no_details : Details
no_details = record {
  logo_url = none;
  description = none;
  website = none;
  size = none;
  company_type = none;
  address = none;
  province = none;
  ward = none;
}

abbrev named : String → CreateCompanyInput
named name = record { name = name; details = no_details }

abbrev empty : Tables
empty = record {
  companies = [];
  users = record { id = 4; company_id = none } ∷ record { id = 5; company_id = none } ∷ [];
}

empty-IsCompanySound : IsCompanySound empty
empty-IsCompanySound = record {
  ids = tt;
  slug_once = λ slug. omega arith;
  owner_once = λ o. omega arith;
  linked = refl;
}

abbrev owned : String → Bool
owned url = false

-- Two companies of one name, and another one after the first has been deleted.
abbrev commands : List Command
commands =
    create_it 4 1 (named "acme")
    ∷ create_it 5 2 (named "acme!")
    ∷ create_it 4 3 (named "other")
    ∷ update_it 4 2 (record { name = some "mine"; details = no_details })
    ∷ delete_it 1000 4 1
    ∷ create_it 4 3 (named "acme")
    ∷ []

three_slugs :
    slugs (run memory owned units commands empty)
    ≡ units "acme-3" ∷ units "acme-2" ∷ units "acme" ∷ []
unfolding code
three_slugs = refl

run-IsCompanySound_example : IsCompanySound (run memory owned units commands empty)
run-IsCompanySound_example =
    run-IsCompanySound memory-IsDatabase owned units commands empty empty-IsCompanySound

abbrev acme : Company
acme = record {
  id = 1;
  name = "acme";
  slug = units "acme";
  details = no_details;
  deleted_at = none;
  owner_id = 4;
}

abbrev with_acme : Tables
with_acme = record {
  companies = acme ∷ [];
  users = record { id = 4; company_id = some 1 } ∷ record { id = 5; company_id = none } ∷ [];
}

abbrev again : Company
again = record acme { id = 2; owner_id = 5 }

taken_meanwhile :
    insert_company memory owned units again with_acme ≡ (err company_slug_taken, with_acme)
unfolding code
taken_meanwhile = refl

insert_company_refused_example :
    (with_acme ≡ with_acme)
    × (((company_slug_taken ≡ company_slug_taken)
          × (is_taken (units "acme") (slugs with_acme) ≡ true))
        ⊎ ((company_slug_taken ≡ company_already_exists)
            × (is_some (find_by_owner_id 5 with_acme) ≡ true))
        ⊎ ((company_slug_taken ≡ unexpected)
            × ((memory.commit (create_with_owner_link again) with_acme).0 ≡ err failed)))
insert_company_refused_example =
    insert_company_refused memory-IsDatabase owned units again with_acme with_acme
      company_slug_taken refl taken_meanwhile

second_of_owner :
    create_company memory owned units 4 2 (named "other") with_acme
    ≡ (err company_already_exists, with_acme)
unfolding code
second_of_owner = refl

create_company_refused_example :
    (with_acme ≡ with_acme)
    × (((company_already_exists ≡ company_already_exists)
          × (is_some (find_by_owner_id 4 with_acme) ≡ true))
        ⊎ ((company_already_exists ≡ invalid_logo_url) × (foreign_url owned none ≡ true))
        ⊎ ((company_already_exists ≡ unexpected)
            × (x : Company) × (x.id ≡ 2)
            × (x.owner_id ≡ 4)
            × (is_taken x.slug (slugs with_acme) ≡ false)
            × ((memory.commit (create_with_owner_link x) with_acme).0 ≡ err failed)))
create_company_refused_example =
    create_company_refused memory-IsDatabase owned units 4 2 (named "other") with_acme with_acme
      company_already_exists refl second_of_owner

abbrev without_acme : Tables
without_acme = record with_acme { companies = record acme { deleted_at = some 1000 } ∷ [] }

with_acme-IsCompanySound : IsCompanySound with_acme
with_acme-IsCompanySound = record {
  ids = (refl, tt);
  slug_once = λ slug. ground arith;
  owner_once = λ o. ground arith;
  linked = refl;
}

deleted : delete_company memory 1000 4 1 with_acme ≡ (ok tt, without_acme)
unfolding code
deleted = refl

delete_company_accepted_example :
    (find_by_id 1 without_acme ≡ none) × (get_recruiter_company_id 4 without_acme.users ≡ some 1)
delete_company_accepted_example =
    delete_company_accepted memory-IsDatabase 1000 4 1 with_acme without_acme
      with_acme-IsCompanySound deleted
