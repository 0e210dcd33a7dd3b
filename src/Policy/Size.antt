-- ===== src/Policy/Size.antt =====
-- `parse_size` and the two accounting functions of `ResourcePolicy`
-- (crates/sandbox-policy/src/lib.rs).
pub mod Laws
use mathlib.Core.Option
use simple_sandbox_public.Prelude.{
  ℕ, ◌*◌, ◌||◌, Option, none, some, [], ◌∷◌, ◌++◌, Text, ltb, ◌==ℕ◌, if◌then◌else◌,
}
use simple_sandbox_public.Result.{Result, ok, err, ◌>>=◌, ok_or}
use simple_sandbox_public.Text.{codes, trim, is_empty}
use simple_sandbox_public.Text.Decimal.{max_u64, parse_uint}
use simple_sandbox_public.Float.{times, round_u64}
use simple_sandbox_public.Policy.{PolicyError, invalid, ResourcePolicy}

pub empty_size : PolicyError
empty_size = invalid (codes "empty memory size")

pub invalid_size : Text → PolicyError
invalid_size s = invalid (codes "invalid memory size '" ++ s ++ codes "'")

pub size_overflow : Text → PolicyError
size_overflow s = invalid (codes "memory size overflow '" ++ s ++ codes "'")

-- `u64::checked_mul`
unfoldable pub checked_mul : ℕ → ℕ → Option ℕ
checked_mul a b = if ltb max_u64 (a * b) then none else some (a * b)

-- The multiplier that a last byte stands for.
unfoldable pub multiplier : ℕ → Option ℕ
multiplier b =
    if b ==ℕ b'K' || b ==ℕ b'k'
    then some 1024
    else if b ==ℕ b'M' || b ==ℕ b'm'
    then some (1024 * 1024)
    else if b ==ℕ b'G' || b ==ℕ b'g'
    then some (1024 * 1024 * 1024)
    else if b ==ℕ b'T' || b ==ℕ b't'
    then some (1024 * 1024 * 1024 * 1024)
    else none

-- The text without its last character, and that character; `none` for the empty text.
unfoldable pub split_last : Text → Option (Text × ℕ)
split_last [] = none
split_last (c ∷ []) = some ([], c)
split_last (c ∷ d ∷ s) = Option.map (λ (front, last). (c ∷ front, last)) (split_last (d ∷ s))

-- The number's text and its multiplier.
unfoldable pub split_unit : Text → Text × ℕ
unfolding multiplier split_last
split_unit s = elim (split_last s) [
  | none ↦ (s, 1)
  | some (front, last) ↦ elim (multiplier last) [ none ↦ (s, 1) | some m ↦ (front, m) ]
]

-- The end of `parse_size`: the number is read, and multiplied with a check.
unfoldable pub parse_parts : Text → Text × ℕ → Result PolicyError ℕ
unfolding checked_mul
parse_parts s (num, mult) = do
  value ← ok_or (parse_uint max_u64 num) (invalid_size s)
  ok_or (checked_mul value mult) (size_overflow s)

-- `parse_size` behind the trimming.
unfoldable pub parse_trimmed : Text → Result PolicyError ℕ
unfolding split_unit parse_parts
parse_trimmed s = if is_empty s then err empty_size else parse_parts s (split_unit s)

unfoldable pub parse_size : Text → Result PolicyError ℕ
unfolding parse_trimmed
parse_size s = parse_trimmed (trim s)

unfoldable pub memory_bytes : ResourcePolicy → Result PolicyError ℕ
unfolding parse_size
memory_bytes r = parse_size r.memory

-- `(cpus * 1000.0).round() as u64`
unfoldable pub millicores : ResourcePolicy → ℕ
unfolding times round_u64
millicores r = round_u64 (times r.cpus 1000)
