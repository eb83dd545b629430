-- ===== src/Strings.antt =====
-- The functions of Go's package `strings` that the program calls, on texts of code points
-- (a Go string that is valid UTF-8; JSON decoding only yields such strings).
mod Fold
pub use Fold.{Folding, equal_fold_refl}
unfoldable pub use Fold.{fold_rune, equal_fold}
use Prim.Native.Char.{Char, code}
use Prim.Native.String.{[], ◌∷◌}
use mathlib.Core.List.{[], ◌∷◌}
use agent_secyrity.Prelude.{
  ℕ, String, Bool, true, false, ◌&&◌, ◌||◌, List, Option, none, some, ◌==◌, leb, nat_eq,
  if◌then◌else◌,
}

-- unicode.IsSpace: the code points with property White_Space.
is_space : ℕ → Bool
is_space c =
    (leb 9 c && leb c 13)
    || nat_eq c 32
    || nat_eq c 0x85
    || nat_eq c 0xa0
    || nat_eq c 0x1680
    || (leb 0x2000 c && leb c 0x200a)
    || nat_eq c 0x2028
    || nat_eq c 0x2029
    || nat_eq c 0x202f
    || nat_eq c 0x205f
    || nat_eq c 0x3000

trim_left : String → String
trim_left [] = []
trim_left (c ∷ s) = if is_space (code c) then trim_left s else c ∷ s

-- What is left of `c ∷ s` when `s` is already trimmed on its right.
trim_end : Char → String → String
trim_end c [] = if is_space (code c) then [] else c ∷ []
trim_end c s = c ∷ s

trim_right : String → String
trim_right [] = []
trim_right (c ∷ s) = trim_end c (trim_right s)

-- strings.TrimSpace
unfoldable pub trim_space : String → String
unfolding trim_left trim_right trim_end is_space
trim_space s = trim_right (trim_left s)

-- strings.TrimSpace(s) == ""
unfoldable pub is_blank : String → Bool
unfolding trim_space
is_blank s = trim_space s == ""

has_prefix : String → String → Bool
has_prefix s [] = true
has_prefix [] (_ ∷ _) = false
has_prefix (c ∷ s) (d ∷ p) = nat_eq (code c) (code d) && has_prefix s p

-- strings.Contains
unfoldable pub contains : String → String → Bool
unfolding has_prefix
contains [] p = has_prefix [] p
contains (c ∷ s) p = has_prefix (c ∷ s) p || contains s p

-- `c` put in front of the first part.
extend_first : Char → List String → List String
extend_first c [] = []
extend_first c (part ∷ parts) = (c ∷ part) ∷ parts

-- strings.Split, at a separator of one code point below 128
unfoldable pub split : ℕ → String → List String
unfolding extend_first
split separator [] = "" ∷ []
split separator (c ∷ s) =
    if nat_eq (code c) separator then "" ∷ split separator s else extend_first c (split separator s)

extend_before : Char → Option (String × String) → Option (String × String)
extend_before c none = none
extend_before c (some (before, after)) = some (c ∷ before, after)

-- strings.Cut, at a separator of one code point; `none` stands for `found == false`
unfoldable pub cut : ℕ → String → Option (String × String)
unfolding extend_before
cut separator [] = none
cut separator (c ∷ s) =
    if nat_eq (code c) separator then some ("", s) else extend_before c (cut separator s)
