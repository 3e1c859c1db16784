-- ===== src/Common/Text.antt =====
-- Text as ECMAScript sees it, a list of UTF-16 code units, and the string methods that the code
-- calls.
pub mod Laws
use Prim.Native.Char.{code}
use Prim.Native.String.{String, [] as []ₛ, ◌∷◌ as ◌∷ₛ◌}
use recruitment_platform_be.Prelude.{
  ℕ, zero, suc, ◌==◌, leb, Bool, true, false, ◌&&◌, ◌||◌, List, [], ◌∷◌, any, if◌then◌else◌,
}

abbrev pub Text : Type 0
Text = List ℕ

-- A literal of the basic multilingual plane.
abbrev pub units : String → Text
units []ₛ = []
units (c ∷ₛ s) = code c ∷ units s

abbrev pub within : ℕ → ℕ → ℕ → Bool
within low high n = leb low n && leb n high

-- WhiteSpace and LineTerminator of ECMAScript.
abbrev pub is_space : ℕ → Bool
is_space n =
    within 9 13 n
    || n == 32
    || n == 160
    || n == 5760
    || within 8192 8202 n
    || within 8232 8233 n
    || n == 8239
    || n == 8287
    || n == 12288
    || n == 65279

abbrev pub is_empty : Text → Bool
is_empty [] = true
is_empty (c ∷ s) = false

abbrev pub trim_start : Text → Text
trim_start [] = []
trim_start (c ∷ s) = let rest = trim_start s in if is_space c then rest else c ∷ s

abbrev pub trim_end : Text → Text
trim_end [] = []
trim_end (c ∷ s) = let rest = trim_end s in if is_empty rest && is_space c then [] else c ∷ rest

-- `s.trim()`
unfoldable pub trim : Text → Text
trim s = trim_end (trim_start s)

-- `s.slice(0, n)`
abbrev pub take : ℕ → Text → Text
take n [] = []
take zero (c ∷ s) = []
take (suc n) (c ∷ s) = c ∷ take n s
