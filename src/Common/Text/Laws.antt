-- ===== src/Common/Text/Laws.antt =====
-- Trimming twice is trimming once.
use recruitment_platform_be.Prelude.{◌≡◌, refl, ap, ◌∙◌, false, [], ◌∷◌, ◌&&◌, inl, inr, Bool-cases}
use recruitment_platform_be.Common.Text.{Text, is_space, is_empty, trim_start, trim_end, trim}

trim_end-trim_end : (s : Text) → trim_end (trim_end s) ≡ trim_end s
trim_end-trim_end [] = refl
trim_end-trim_end (c ∷ s) = elim (Bool-cases (is_empty (trim_end s) && is_space c)) [
  | inl blank ↦ rw blank refl
  | inr kept ↦ rw (kept, trim_end-trim_end s, kept) refl
]

-- The first unit of what is left is no space.
abbrev IsStarted : Text → Type 0
IsStarted [] = Unit
IsStarted (c ∷ s) = is_space c ≡ false

trim_start-IsStarted : (s : Text) → IsStarted (trim_start s)
trim_start-IsStarted [] = tt
trim_start-IsStarted (c ∷ s) = elim (Bool-cases (is_space c)) [
  | inl blank ↦ rw blank (trim_start-IsStarted s)
  | inr kept ↦ rw kept kept
]

trim_end-IsStarted : (s : Text) → IsStarted s → trim_start (trim_end s) ≡ trim_end s
trim_end-IsStarted [] h = refl
trim_end-IsStarted (c ∷ s) h = elim (Bool-cases (is_empty (trim_end s) && is_space c)) [
  | inl blank ↦ rw blank refl
  | inr kept ↦ rw (kept, h) refl
]

pub trim-trim : (s : Text) → trim (trim s) ≡ trim s
unfolding trim
trim-trim s =
    ap trim_end (trim_end-IsStarted (trim_start s) (trim_start-IsStarted s))
    ∙ trim_end-trim_end (trim_start s)
