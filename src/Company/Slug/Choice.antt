-- ===== src/Company/Slug/Choice.antt =====
-- The loop finds a slug that is free.
use recruitment_platform_be.Prelude.{
  ℕ, zero, suc, ◌+◌, ◌-◌, ◌*◌, ◌/◌, ◌%◌, ◌≡◌, ◌≤◌, ◌<◌, inl, inr, Bool, true, false, not, Option,
  some, List, [], ◌∷◌, ◌++◌, ◌==◌, ==_iff, ltb, leb, all, filter, count, length, drop, refl, ap,
  ◌∙◌, ◌||◌, arith, Bool-cases,
}
use recruitment_platform_be.Common.Text.{Text}
use recruitment_platform_be.Company.Slug.{
  dash, same_text, is_slug_unit, is_combining, dashed, drop_dashes, drop_last_dashes, slug_base,
  digits, decimal, numbered, is_taken, next_free, generate_unique_slug,
}

pub same_text_equal : (s t : Text) → same_text s t ≡ true → s ≡ t
same_text_equal [] [] h = refl
same_text_equal [] (d ∷ t) h = absurd (ground arith)
same_text_equal (c ∷ s) [] h = absurd (ground arith)
same_text_equal (c ∷ s) (d ∷ t) h = ground (arith, same_text_equal s t, ==_iff c d)

pub same_text_refl : (s : Text) → same_text s s ≡ true
same_text_refl [] = refl
same_text_refl (c ∷ s) = ground (arith, same_text_refl s, ==_iff c c)

-- The number that a text of digits stands for, after one that has been read.
abbrev read : (n : ℕ) → Text → ℕ
read n [] = n
read n (c ∷ s) = read (10 * n + (c - 48)) s

read-digits : (fuel n : ℕ) (acc : Text) → n < fuel → read 0 (digits fuel n acc) ≡ read n acc
read-digits zero n acc h = absurd (omega arith)
read-digits (suc fuel) n acc h = elim (Bool-cases (ltb n 10)) [
  | inl small ↦ rw small (ap (λ k. read k acc) (omega arith))
  | inr large ↦ rw large (
      read-digits fuel (n / 10) ((48 + n % 10) ∷ acc) (ground arith)
      ∙ ap (λ k. read k acc) (omega arith))
]

-- The number of a slug after its base; of the base itself it is 0.
abbrev number_of : (base : Text) → Text → ℕ
number_of base slug = read 0 (drop (suc (length base)) slug)

drop_all : (base : Text) → drop (suc (length base)) base ≡ []
drop_all [] = refl
drop_all (c ∷ s) = drop_all s

drop_none : (s : Text) → drop 0 s ≡ s
drop_none [] = refl
drop_none (c ∷ s) = refl

drop-append : (base : Text) (c : ℕ) (s : Text) → drop (suc (length base)) (base ++ c ∷ s) ≡ s
drop-append [] c s = drop_none s
drop-append (b ∷ base) c s = drop-append base c s

number_of-numbered : (base : Text) (n : ℕ) → number_of base (numbered base n) ≡ n
unfolding numbered decimal
number_of-numbered base n =
    ap (read 0) (drop-append base dash (digits (suc n) n []))
    ∙ read-digits (suc n) n [] (omega arith)

number_of-base : (base : Text) → number_of base base ≡ 0
number_of-base base = ap (read 0) (drop_all base)

-- The rows that a later round of the loop can still meet.
abbrev rest_of : (base : Text) (n : ℕ) → List Text → ℕ
rest_of base n taken = count (λ t. leb n (number_of base t)) taken

count-length : (p : Text → Bool) (taken : List Text) → count p taken ≤ length taken
count-length p [] = omega arith
count-length p (t ∷ ts) = ground (arith, count-length p ts)

rest_of-later :
    (base : Text) (n m : ℕ) (taken : List Text)
    → n ≤ m
    → rest_of base m taken ≤ rest_of base n taken
rest_of-later base n m [] h = omega arith
rest_of-later base n m (t ∷ ts) h = ground (arith, rest_of-later base n m ts)

-- The row that has the slug is met no more.
rest_of-taken :
    (base slug : Text) (m : ℕ) (taken : List Text)
    → is_taken slug taken ≡ true
    → number_of base slug < m
    → rest_of base m taken < rest_of base (number_of base slug) taken
rest_of-taken base slug m [] h less = absurd (ground arith)
rest_of-taken base slug m (t ∷ ts) h less = elim (Bool-cases (same_text t slug)) [
  | inl same ↦
      let e : number_of base t ≡ number_of base slug =
        ap (number_of base) (same_text_equal t slug same) in
      ground (arith, rest_of-later base (number_of base slug) m ts)
  | inr other ↦ ground (arith, rest_of-taken base slug m ts)
]

-- What the loop is about: a slug out of the units of slugs and dashes.
abbrev pub is_slug_text : Text → Bool
is_slug_text = all (λ c. is_slug_unit c || c == dash)

digits-text :
    (fuel n : ℕ) (acc : Text) → is_slug_text acc ≡ true → is_slug_text (digits fuel n acc) ≡ true
digits-text zero n acc h = h
digits-text (suc fuel) n acc h = ground (arith, digits-text fuel (n / 10) ((48 + n % 10) ∷ acc))

numbered-text :
    (base : Text) (n : ℕ) → is_slug_text base ≡ true → is_slug_text (numbered base n) ≡ true
unfolding numbered decimal
numbered-text base n h = go base h
  where
    go :
        (base : Text)
        → is_slug_text base ≡ true
        → is_slug_text (base ++ dash ∷ digits (suc n) n []) ≡ true
    go [] h = ground (arith, digits-text (suc n) n [])
    go (c ∷ s) h = ground (arith, go s)

dashed-text : (s : Text) → is_slug_text (dashed s) ≡ true
dashed-text [] = refl
dashed-text (c ∷ s) = ground (arith, dashed-text s)

drop_dashes-text : (s : Text) → is_slug_text s ≡ true → is_slug_text (drop_dashes s) ≡ true
drop_dashes-text [] h = refl
drop_dashes-text (c ∷ s) h = ground (arith, drop_dashes-text s)

drop_last_dashes-text :
    (s : Text) → is_slug_text s ≡ true → is_slug_text (drop_last_dashes s) ≡ true
drop_last_dashes-text [] h = refl
drop_last_dashes-text (c ∷ s) h = ground (arith, drop_last_dashes-text s)

slug_base-text : (decomposed : Text) → is_slug_text (slug_base decomposed) ≡ true
unfolding slug_base
slug_base-text decomposed =
    let s = dashed (filter (λ c. not (is_combining c)) decomposed) in
    drop_last_dashes-text (drop_dashes s)
      (drop_dashes-text s (dashed-text (filter (λ c. not (is_combining c)) decomposed)))

abbrev IsFree : Option Text → List Text → Type 0
IsFree found taken =
    (slug : Text) × (found ≡ some slug) × (is_taken slug taken ≡ false) × (is_slug_text slug ≡ true)

next_free_total :
    (fuel : ℕ) (base slug : Text) (suffix : ℕ) (taken : List Text)
    → number_of base slug ≤ suffix
    → rest_of base (number_of base slug) taken < fuel
    → is_slug_text base ≡ true
    → is_slug_text slug ≡ true
    → IsFree (next_free fuel base slug suffix taken) taken
unfolding next_free
next_free_total zero base slug suffix taken low few b h = absurd (omega arith)
next_free_total (suc fuel) base slug suffix taken low few b h =
    elim (Bool-cases (is_taken slug taken)) [
      | inr free ↦ (slug, ground arith, free, h)
      | inl taken_already ↦
          let next = numbered base (suffix + 1) in
          let number = number_of-numbered base (suffix + 1) in
          let fewer = rest_of-taken base slug (suffix + 1) taken taken_already (omega arith) in
          let (found, e, free, text) =
            next_free_total fuel base next (suffix + 1) taken (omega (arith, number))
              (rw number (omega arith)) b (numbered-text base (suffix + 1) b) in
          (found, ground arith, free, text)
    ]

-- With more fuel than there are companies the loop ends, whatever their slugs are: with a slug that
-- none of them has, made of the letters a to z, digits and dashes.
pub generate_unique_slug_total :
    (fuel : ℕ) (decomposed : Text) (taken : List Text)
    → length taken < fuel
    → (slug : Text) × (generate_unique_slug fuel decomposed taken ≡ some slug)
      × (is_taken slug taken ≡ false)
      × (is_slug_text slug ≡ true)
unfolding generate_unique_slug
generate_unique_slug_total fuel decomposed taken few =
    let base = slug_base decomposed in
    let number = number_of-base base in
    next_free_total fuel base base 1 taken (omega (arith, number))
      (omega (arith, count-length (λ t. leb (number_of base base) (number_of base t)) taken))
      (slug_base-text decomposed) (slug_base-text decomposed)
