-- ===== src/Company/Slug.antt =====
-- `generateUniqueSlug` of src/modules/company/application/commands/create-company.command.ts. What
-- `toLowerCase().normalize('NFD')` makes of a name is an argument: it follows from the tables of
-- Unicode.
pub mod Choice
use recruitment_platform_be.Prelude.{
  ℕ, zero, suc, ◌+◌, ◌*◌, ◌/◌, ◌%◌, Bool, true, false, not, Option, none, some, List, [], ◌∷◌, ◌++◌,
  ◌==◌, ◌&&◌, ◌||◌, ltb, any, filter, if◌then◌else◌,
}
use recruitment_platform_be.Common.Text.{Text, within, is_empty}

abbrev pub dash : ℕ
dash = 45

abbrev pub same_text : Text → Text → Bool
same_text [] [] = true
same_text [] (d ∷ t) = false
same_text (c ∷ s) [] = false
same_text (c ∷ s) (d ∷ t) = c == d && same_text s t

-- `[a-z0-9]`
abbrev pub is_slug_unit : ℕ → Bool
is_slug_unit c = within 97 122 c || within 48 57 c

-- `[\u0300-\u036f]`
abbrev pub is_combining : ℕ → Bool
is_combining c = within 768 879 c

abbrev pub starts_with_dash : Text → Bool
starts_with_dash [] = false
starts_with_dash (c ∷ s) = c == dash

-- `.replace(/[^a-z0-9]+/g, '-')`
abbrev pub dashed : Text → Text
dashed [] = []
dashed (c ∷ s) =
    let rest = dashed s in
    if is_slug_unit c then c ∷ rest else if starts_with_dash rest then rest else dash ∷ rest

-- `.replace(/^-+|-+$/g, '')`
abbrev pub drop_dashes : Text → Text
drop_dashes [] = []
drop_dashes (c ∷ s) = let rest = drop_dashes s in if c == dash then rest else c ∷ s

abbrev pub drop_last_dashes : Text → Text
drop_last_dashes [] = []
drop_last_dashes (c ∷ s) =
    let rest = drop_last_dashes s in if is_empty rest && c == dash then [] else c ∷ rest

unfoldable pub slug_base : (decomposed : Text) → Text
slug_base decomposed =
    drop_last_dashes (drop_dashes (dashed (filter (λ c. not (is_combining c)) decomposed)))

abbrev pub digits : (fuel n : ℕ) → Text → Text
digits zero n acc = acc
digits (suc fuel) n acc =
    let more = digits fuel (n / 10) ((48 + n % 10) ∷ acc) in
    if ltb n 10 then (48 + n) ∷ acc else more

-- A number in a template literal.
unfoldable pub decimal : ℕ → Text
decimal n = digits (suc n) n []

unfoldable pub numbered : (base : Text) (suffix : ℕ) → Text
unfolding decimal
numbered base suffix = base ++ dash ∷ decimal suffix

-- `existsBySlug`, of the slugs of all rows
abbrev pub is_taken : Text → List Text → Bool
is_taken slug = any (λ other. same_text other slug)

-- The loop, as long as the fuel lasts.
unfoldable pub next_free : (fuel : ℕ) (base slug : Text) (suffix : ℕ) → List Text → Option Text
unfolding numbered
next_free zero base slug suffix taken = none
next_free (suc fuel) base slug suffix taken =
    let later = next_free fuel base (numbered base (suffix + 1)) (suffix + 1) taken in
    if is_taken slug taken then later else some slug

unfoldable pub generate_unique_slug : (fuel : ℕ) (decomposed : Text) → List Text → Option Text
unfolding slug_base next_free
generate_unique_slug fuel decomposed taken =
    next_free fuel (slug_base decomposed) (slug_base decomposed) 1 taken
