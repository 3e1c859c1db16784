-- ===== src/Company/Tables.antt =====
-- company.entity.ts, company.exceptions.ts, and the rows of companies with `User.companyId`
-- (CompanyPrismaRepository). The constraints are those of the migrations.

use Prim.Native.String.{String}
use recruitment_platform_be.Prelude.{
  ℕ, Bool, true, false, not, Option, none, some, List, ◌∷◌, ◌==◌, ◌&&◌, any, find, is_some,
  if◌then◌else◌,
}
use recruitment_platform_be.Prelude.Rows.{row, replace_row, without_row}
use recruitment_platform_be.Prelude.Action.{Result, ok, err, check}
use recruitment_platform_be.Common.Exceptions.{Category}
use recruitment_platform_be.Common.Tables.{Change, violates, failed}
use recruitment_platform_be.Common.Text.{Text}
use recruitment_platform_be.Company.Slug.{same_text}

pub data CompanyException : Type 0 where
  company_not_found company_already_exists company_slug_taken : CompanyException
  company_ownership company_already_deleted invalid_logo_url unexpected : CompanyException

pub data Kind : Type 0 where
  domain : (category : Category) → (code : String) → Kind
  not_domain : Kind

unfoldable pub kind : CompanyException → Kind
kind company_not_found = domain Category.entity_not_found "COMPANY_NOT_FOUND"
kind company_already_exists = domain Category.duplicate_entity "COMPANY_ALREADY_EXISTS"
kind company_slug_taken = domain Category.duplicate_entity "COMPANY_SLUG_TAKEN"
kind company_ownership = domain Category.unauthorized_domain "COMPANY_NOT_OWNER"
kind company_already_deleted = domain Category.business_rule_violation "COMPANY_ALREADY_DELETED"
kind invalid_logo_url = domain Category.business_rule_violation "COMPANY_INVALID_LOGO_URL"
kind unexpected = not_domain

pub data CompanySize : Type 0 where
  size_1_10 size_11_50 size_51_200 size_201_500 size_500_plus : CompanySize

pub data CompanyType : Type 0 where
  product outsourcing startup consulting : CompanyType

-- The fields that an input may set.
pub record Details : Type 0 where
  pub logo_url : Option String
  pub description : Option String
  pub website : Option String
  pub size : Option CompanySize
  pub company_type : Option CompanyType
  pub address : Option String
  pub province : Option String
  pub ward : Option String

pub record Company : Type 0 where
  pub id : ℕ
  pub name : String
  pub slug : Text
  pub details : Details
  pub deleted_at : Option ℕ
  pub owner_id : ℕ

unfoldable pub ensure_owner : (user_id : ℕ) → Company → Result CompanyException (Unit {0})
ensure_owner user_id c = check (c.owner_id == user_id) company_ownership

unfoldable pub soft_delete : (now : ℕ) → Company → Result CompanyException Company
soft_delete now c =
    if is_some c.deleted_at
    then err company_already_deleted
    else ok (record c { deleted_at = some now })

abbrev pub is_empty : String → Bool
is_empty String.[] = true
is_empty (String.◌∷◌ c s) = false

-- A field that the input leaves undefined is kept.
abbrev kept : {A : Type 0} → Option A → Option A → Option A
kept none old = old
kept (some a) old = some a

-- `if (data.name)`
abbrev new_name : Option String → String → String
new_name none old = old
new_name (some name) old = if is_empty name then old else name

unfoldable pub update_details : (name : Option String) → Details → Company → Company
update_details name new c = record c {
  name = new_name name c.name;
  details = record {
    logo_url = kept new.logo_url c.details.logo_url;
    description = kept new.description c.details.description;
    website = kept new.website c.details.website;
    size = kept new.size c.details.size;
    company_type = kept new.company_type c.details.company_type;
    address = kept new.address c.details.address;
    province = kept new.province c.details.province;
    ward = kept new.ward c.details.ward;
  };
}

pub record Owner : Type 0 where
  pub id : ℕ
  pub company_id : Option ℕ

pub record Tables : Type 0 where
  pub companies : List Company
  pub users : List Owner

-- `deletedAt: null`
abbrev pub is_active : Company → Bool
is_active c = not (is_some c.deleted_at)

unfoldable pub find_by_id : (id : ℕ) → Tables → Option Company
find_by_id id t = find (λ c. c.id == id && is_active c) t.companies

abbrev pub is_active_of : (owner_id : ℕ) → Company → Bool
is_active_of owner_id c = c.owner_id == owner_id && is_active c

unfoldable pub find_by_owner_id : (owner_id : ℕ) → Tables → Option Company
find_by_owner_id owner_id t = find (is_active_of owner_id) t.companies

-- The unique indexes of the rows, for a row that comes in beside them.
abbrev pub admitted : Company → List Company → Change Tables → Change Tables
admitted x others change t =
    if any (λ c. same_text c.slug x.slug) others
    then err (violates "companies_slug_key")
    else if is_active x && any (is_active_of x.owner_id) others
    then err (violates "companies_owner_id_active_unique")
    else change t

unfoldable pub create_with_owner_link : Company → Change Tables
create_with_owner_link x t =
    if is_some (row (λ c. c.id) x.id t.companies)
    then err (violates "companies_pkey")
    else admitted x t.companies
        (λ t.
          if is_some (row (λ u. u.id) x.owner_id t.users)
          then ok (record {
            companies = x ∷ t.companies;
            users =
                replace_row (λ u. u.id) (record { id = x.owner_id; company_id = some x.id })
                  t.users;
          })
          else err failed)
        t

unfoldable pub update : Company → Change Tables
update x t =
    if is_some (row (λ c. c.id) x.id t.companies)
    then admitted x (without_row (λ c. c.id) x.id t.companies)
        (λ t. ok (record t { companies = replace_row (λ c. c.id) x t.companies })) t
    else err failed

-- UserLookupAdapter of the job module
unfoldable pub get_recruiter_company_id : (user_id : ℕ) → List Owner → Option ℕ
get_recruiter_company_id user_id users = elim (row (λ u. u.id) user_id users) [
  | none ↦ none
  | some u ↦ u.company_id
]
