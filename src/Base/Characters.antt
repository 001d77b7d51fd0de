-- ===== src/Base/Characters.antt =====
-- Texts as lists of their code points, and what the code uses of the methods of a JavaScript string.
use Prim.Native.Nat.{ℕ, zero, suc, ◌+◌, ◌-◌}
use Prim.Native.Char.{code}
use Prim.Native.String.{String}
use mathlib.Core.Bool.{Bool, true, false, ◌&&◌, ◌||◌}
use mathlib.Core.List.{List, [], ◌∷◌, ◌++◌, map, reverse}
use mathlib.Core.Option.{Option, none, some}
use harmony_saas_multitenanc.Base.Tests.{ltb, leb, nat_eq, if◌then◌else◌}
use harmony_saas_multitenanc.Base.Lists.{length}

abbrev pub Text : Type 0
Text = List ℕ

abbrev pub codes : String → Text
codes String.[] = []
codes (String.◌∷◌ c s) = code c ∷ codes s

-- `text.length`, where a code point from 65536 on counts twice.
unfoldable pub units_of : Text → ℕ
units_of [] = 0
units_of (c ∷ s) = (if ltb c 65536 then 1 else 2) + units_of s

abbrev pub is_digit : ℕ → Bool
is_digit c = leb b'0' c && leb c b'9'

-- The white space of ECMAScript, with the ends of lines.
unfoldable pub is_space : ℕ → Bool
is_space c =
    nat_eq c 32
    || leb 9 c && leb c 13
    || nat_eq c 0xA0
    || nat_eq c 0x1680
    || leb 0x2000 c && leb c 0x200A
    || leb 0x2028 c && leb c 0x2029
    || nat_eq c 0x202F
    || nat_eq c 0x205F
    || nat_eq c 0x3000
    || nat_eq c 0xFEFF

unfoldable pub trim_start : Text → Text
unfolding is_space
trim_start [] = []
trim_start (c ∷ s) = if is_space c then trim_start s else c ∷ s

unfoldable pub trim : Text → Text
unfolding trim_start
trim s = reverse (trim_start (reverse (trim_start s)))

-- The rest behind a beginning.
unfoldable pub strip_prefix : Text → Text → Option Text
strip_prefix [] s = some s
strip_prefix (p ∷ ps) [] = none
strip_prefix (p ∷ ps) (c ∷ s) = if nat_eq p c then strip_prefix ps s else none

-- `s.replace(pattern, by)` for a pattern that is a text: the first occurrence only.
unfoldable pub replace_first : Text → Text → Text → Text
unfolding strip_prefix
replace_first pattern by [] = elim (strip_prefix pattern []) [ none ↦ [] | some rest ↦ by ++ rest ]
replace_first pattern by (c ∷ s) = elim (strip_prefix pattern (c ∷ s)) [
  | none ↦ c ∷ replace_first pattern by s
  | some rest ↦ by ++ rest
]

-- `s.split(separator).join('')`; `skip` characters belong to an occurrence that is found.
unfoldable pub remove_from : Text → ℕ → Text → Text
unfolding strip_prefix
remove_from separator skip [] = []
remove_from separator (suc skip) (c ∷ s) = remove_from separator skip s
remove_from [] zero (c ∷ s) = c ∷ s
remove_from (p ∷ ps) zero (c ∷ s) = elim (strip_prefix (p ∷ ps) (c ∷ s)) [
  | none ↦ c ∷ remove_from (p ∷ ps) zero s
  | some _ ↦ remove_from (p ∷ ps) (length ps) s
]

unfoldable pub remove_all : Text → Text → Text
unfolding remove_from
remove_all separator s = remove_from separator zero s

-- `s.padStart(width, '0')`
unfoldable pub zeros : ℕ → Text
zeros zero = []
zeros (suc n) = b'0' ∷ zeros n

unfoldable pub pad_start : ℕ → Text → Text
unfolding zeros
pad_start width s = zeros (width - length s) ++ s

-- `s.toUpperCase()` on the letters of ASCII
unfoldable pub to_upper : Text → Text
to_upper = map (λ c. if leb b'a' c && leb c b'z' then c - 32 else c)

unfoldable pub text_eq : Text → Text → Bool
text_eq [] [] = true
text_eq [] (_ ∷ _) = false
text_eq (_ ∷ _) [] = false
text_eq (c ∷ s) (d ∷ t) = nat_eq c d && text_eq s t
