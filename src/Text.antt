-- ===== src/Text.antt =====
-- What the program uses of Rust's `str` and `String`, over lists of code points.
pub mod Decimal
pub mod Utf8
pub mod Slice
pub mod Hex
pub mod Laws
use Prim.Native.Char.{code}
use mathlib.Core.List.{reverse}
use simple_sandbox_public.Prelude.{
  ℕ, ◌+◌, String, Bool, true, false, ◌&&◌, ◌||◌, Option, none, some, List, [], ◌∷◌, ◌++◌, map, Text,
  leb, ◌==ℕ◌, if◌then◌else◌,
}

-- A literal.
abbrev pub codes : String → Text
codes String.[] = []
codes (String.◌∷◌ c s) = code c ∷ codes s

-- `char::is_whitespace`: the characters with the Unicode property White_Space.
unfoldable pub is_whitespace : ℕ → Bool
is_whitespace c =
    (leb 9 c && leb c 13)
    || c ==ℕ 32
    || c ==ℕ 0x85
    || c ==ℕ 0xA0
    || c ==ℕ 0x1680
    || (leb 0x2000 c && leb c 0x200A)
    || c ==ℕ 0x2028
    || c ==ℕ 0x2029
    || c ==ℕ 0x202F
    || c ==ℕ 0x205F
    || c ==ℕ 0x3000

-- `str::trim_start`
unfoldable pub trim_start : Text → Text
unfolding is_whitespace
trim_start [] = []
trim_start (c ∷ s) = if is_whitespace c then trim_start s else c ∷ s

-- `str::trim_end`
unfoldable pub trim_end : Text → Text
unfolding trim_start
trim_end s = reverse (trim_start (reverse s))

-- `str::trim`
unfoldable pub trim : Text → Text
unfolding trim_end
trim s = trim_end (trim_start s)

-- `char::to_ascii_lowercase`
unfoldable pub lower : ℕ → ℕ
lower c = if leb b'A' c && leb c b'Z' then c + 32 else c

-- `str::to_ascii_lowercase`
unfoldable pub to_ascii_lowercase : Text → Text
unfolding lower
to_ascii_lowercase s = map lower s

-- `str::contains` with a character.
unfoldable pub contains_char : ℕ → Text → Bool
contains_char c [] = false
contains_char c (d ∷ s) = d ==ℕ c || contains_char c s

-- `str::strip_prefix`, the prefix first.
unfoldable pub strip_prefix : Text → Text → Option Text
strip_prefix [] s = some s
strip_prefix (p ∷ ps) [] = none
strip_prefix (p ∷ ps) (c ∷ s) = elim (p ==ℕ c) [ true ↦ strip_prefix ps s | false ↦ none ]

-- `str::starts_with`, the prefix first.
unfoldable pub starts_with : Text → Text → Bool
unfolding strip_prefix
starts_with p s = elim (strip_prefix p s) [ none ↦ false | some _ ↦ true ]

-- `str::is_empty`
abbrev pub is_empty : Text → Bool
is_empty [] = true
is_empty (c ∷ s) = false

-- `join` of a slice of texts, the separator first.
unfoldable pub join_with : Text → List Text → Text
join_with sep [] = []
join_with sep (s ∷ []) = s
join_with sep (s ∷ t ∷ rest) = s ++ (sep ++ join_with sep (t ∷ rest))

-- A word that is not empty, in front of the others.
abbrev pub flush : Text → List Text → List Text
flush [] words = words
flush (c ∷ s) words = (c ∷ s) ∷ words

-- `str::split_whitespace`, behind the characters `cur` of a word that has begun.
unfoldable pub split_words : Text → Text → List Text
split_words [] cur = flush cur []
split_words (c ∷ s) cur = elim (is_whitespace c) [
  | true ↦ flush cur (split_words s [])
  | false ↦ split_words s (cur ++ c ∷ [])
]

unfoldable pub split_whitespace : Text → List Text
unfolding split_words is_whitespace
split_whitespace s = split_words s []
