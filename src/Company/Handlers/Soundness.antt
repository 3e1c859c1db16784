-- ===== src/Company/Handlers/Soundness.antt =====
-- What the rows of companies and their owners satisfy, and that the inserts and updates keep it.
use mathlib.Core.Path.{subst}
use recruitment_platform_be.Prelude.{
  ℕ, ◌≡◌, ◌≤◌, inl, inr, Bool, true, false, not, Option, none, some, List, [], ◌∷◌, ◌==◌, ==_iff,
  ◌&&◌, ◌||◌, any, all, count, count_of_not_any, refl, arith, Bool-cases,
}
use recruitment_platform_be.Prelude.Rows.{
  row, replace_row, without_row, IsDistinct, row-replace_row, row-key, any_of_row,
  replace_row-IsDistinct,
}
use recruitment_platform_be.Prelude.Action.{ok}
use recruitment_platform_be.Common.Text.{Text}
use recruitment_platform_be.Company.Slug.{same_text}
use recruitment_platform_be.Company.Slug.Choice.{same_text_equal}
use recruitment_platform_be.Company.Tables.{
  Company, Owner, Tables, is_active, is_active_of, create_with_owner_link, update,
}

abbrev has_slug : Text → Company → Bool
has_slug slug c = same_text c.slug slug

abbrev pub points_to : ℕ → Option Owner → Bool
points_to id none = false
points_to id (some u) = elim u.company_id [ none ↦ false | some k ↦ k == id ]

-- The owner of a company that is not deleted is linked to it.
abbrev pub is_linked : List Owner → Company → Bool
is_linked users c = not (is_active c) || points_to c.id (row (λ u. u.id) c.owner_id users)

-- Identifiers and slugs are unique, an owner has at most one company that is not deleted, and is
-- linked to it.
pub record IsCompanySound (t : Tables) : Type 0 where
  pub ids : IsDistinct (λ (c : Company). c.id) t.companies
  pub slug_once : (slug : Text) → count (has_slug slug) t.companies ≤ 1
  pub owner_once : (owner_id : ℕ) → count (is_active_of owner_id) t.companies ≤ 1
  pub linked : all (is_linked t.users) t.companies ≡ true

without_row_absent :
    (k : ℕ) (cs : List Company)
    → any (λ (c : Company). c.id == k) cs ≡ false
    → without_row (λ (c : Company). c.id) k cs ≡ cs
without_row_absent k [] h = refl
without_row_absent k (c ∷ cs) h = ground (arith, without_row_absent k cs)

-- The rows with a condition, once a row has been replaced.
count-replace_row :
    (p : Company → Bool) (x : Company) (cs : List Company)
    → IsDistinct (λ (c : Company). c.id) cs
    → count p (replace_row (λ c. c.id) x cs) ≤ count p (x ∷ without_row (λ c. c.id) x.id cs)
count-replace_row p x [] d = ground arith
count-replace_row p x (c ∷ cs) (other, d) = elim (Bool-cases (c.id == x.id)) [
  | inl same ↦ ground (arith, ==_iff c.id x.id, without_row_absent x.id cs)
  | inr different ↦ ground (arith, count-replace_row p x cs d)
]

count-without_row :
    (p : Company → Bool) (k : ℕ) (cs : List Company)
    → count p (without_row (λ (c : Company). c.id) k cs) ≤ count p cs
count-without_row p k [] = omega arith
count-without_row p k (c ∷ cs) = ground (arith, count-without_row p k cs)

pub all_of_row :
    (p : Company → Bool) (k : ℕ) (y : Company) (cs : List Company)
    → all p cs ≡ true
    → row (λ (c : Company). c.id) k cs ≡ some y
    → p y ≡ true
all_of_row p k y [] h e = absurd (ground arith)
all_of_row p k y (c ∷ cs) h e = elim (Bool-cases (c.id == k)) [
  | inl same ↦ let found : some c ≡ some y = ground arith in ground arith
  | inr different ↦ all_of_row p k y cs (ground arith) (ground arith)
]

all-replace_row :
    (p : Company → Bool) (x : Company) (cs : List Company)
    → all p cs ≡ true
    → p x ≡ true
    → all p (replace_row (λ c. c.id) x cs) ≡ true
all-replace_row p x [] h e = refl
all-replace_row p x (c ∷ cs) h e = ground (arith, all-replace_row p x cs)

-- The link of an owner without a company matters to no other company.
relinked :
    (u : Owner) (users : List Owner) (cs : List Company)
    → all (is_linked users) cs ≡ true
    → any (is_active_of u.id) cs ≡ false
    → all (is_linked (replace_row (λ u. u.id) u users)) cs ≡ true
relinked u users [] h e = refl
relinked u users (c ∷ cs) h e = ground (
  arith,
  relinked u users cs,
  row-replace_row (λ (u : Owner). u.id) c.owner_id u users,
  ==_iff u.id c.owner_id,
  ==_iff c.owner_id u.id,
)

has_slug-cases :
    (x : Company) (slug : Text) (cs : List Company)
    → any (λ c. same_text c.slug x.slug) cs ≡ false
    → count (has_slug slug) cs ≤ 1
    → count (has_slug slug) (x ∷ cs) ≤ 1
has_slug-cases x slug cs alone h = elim (Bool-cases (same_text x.slug slug)) [
  | inl same ↦
      let e = same_text_equal x.slug slug same in
      let none_has : any (has_slug slug) cs ≡ false =
        subst (λ s. any (has_slug s) cs ≡ false) e alone in
      ground (arith, count_of_not_any (has_slug slug) cs none_has)
  | inr different ↦ ground arith
]

is_active_of-cases :
    (x : Company) (owner_id : ℕ) (cs : List Company)
    → (is_active x && any (is_active_of x.owner_id) cs) ≡ false
    → count (is_active_of owner_id) cs ≤ 1
    → count (is_active_of owner_id) (x ∷ cs) ≤ 1
is_active_of-cases x owner_id cs alone h = elim (Bool-cases (is_active_of owner_id x)) [
  | inl same ↦
      let e : x.owner_id ≡ owner_id = ground (arith, ==_iff x.owner_id owner_id) in
      let none_is : any (is_active_of owner_id) cs ≡ false =
        subst (λ o. any (is_active_of o) cs ≡ false) e (ground arith) in
      ground (arith, count_of_not_any (is_active_of owner_id) cs none_is)
  | inr different ↦ ground arith
]

pub create_with_owner_link-IsCompanySound :
    (x : Company) (t t' : Tables)
    → create_with_owner_link x t ≡ ok t'
    → is_active x ≡ true
    → IsCompanySound t
    → IsCompanySound t'
unfolding create_with_owner_link
create_with_owner_link-IsCompanySound x t t' e active sound =
    let u : Owner = record { id = x.owner_id; company_id = some x.id } in
    let new : Tables = record {
      companies = x ∷ t.companies;
      users = replace_row (λ u. u.id) u t.users;
    } in
    let no_slug : any (λ c. same_text c.slug x.slug) t.companies ≡ false = ground arith in
    let no_other : any (is_active_of x.owner_id) t.companies ≡ false = ground arith in
    let same : t' ≡ new = ground arith in
    rw same (record {
      ids = (ground (arith, any_of_row (λ (c : Company). c.id) x.id t.companies), sound.ids);
      slug_once = λ slug. has_slug-cases x slug t.companies no_slug (sound.slug_once slug);
      owner_once = λ o. is_active_of-cases x o t.companies (ground arith) (sound.owner_once o);
      linked = ground (
        arith,
        relinked u t.users t.companies sound.linked no_other,
        row-replace_row (λ (u : Owner). u.id) x.owner_id u t.users,
        ==_iff x.owner_id x.owner_id,
        ==_iff x.id x.id,
      );
    })

-- An update that keeps the owner, and does not bring a company back.
pub update-IsCompanySound :
    (x y : Company) (t t' : Tables)
    → update x t ≡ ok t'
    → row (λ c. c.id) x.id t.companies ≡ some y
    → x.owner_id ≡ y.owner_id
    → is_active y ≡ true
    → IsCompanySound t
    → IsCompanySound t'
unfolding update
update-IsCompanySound x y t t' e found owner active sound =
    let id : Company → ℕ = λ c. c.id in
    let others = without_row id x.id t.companies in
    let new : Tables = record t { companies = replace_row id x t.companies } in
    let no_slug : any (λ c. same_text c.slug x.slug) others ≡ false = ground arith in
    let no_other : (is_active x && any (is_active_of x.owner_id) others) ≡ false = ground arith in
    let same : t' ≡ new = ground arith in
    let old : is_linked t.users y ≡ true =
      all_of_row (is_linked t.users) x.id y t.companies sound.linked found in
    let key : y.id ≡ x.id = row-key id x.id y t.companies found in
    rw same (record {
      ids = replace_row-IsDistinct id x t.companies sound.ids;
      slug_once = λ slug. omega (
        arith,
        count-replace_row (has_slug slug) x t.companies sound.ids,
        has_slug-cases x slug others no_slug (
            omega
              (arith, count-without_row (has_slug slug) x.id t.companies, sound.slug_once slug)),
      );
      owner_once = λ o. omega (
        arith,
        count-replace_row (is_active_of o) x t.companies sound.ids,
        is_active_of-cases x o others no_other (
            omega (arith, count-without_row (is_active_of o) x.id t.companies, sound.owner_once o)),
      );
      linked =
          all-replace_row (is_linked t.users) x t.companies sound.linked
            (rw (owner, ← key) (ground arith));
    })
