-- ===== src/Text/Decimal.antt =====
-- Unsigned integers as Rust prints them (`{}`) and reads them (`str::parse`).
pub mod Laws
pub mod Number
use simple_sandbox_public.Prelude.{
  ℕ, zero, suc, ◌+◌, ◌-◌, ◌*◌, ◌/◌, ◌%◌, ◌^◌, true, false, ◌||◌, Option, none, some, [], ◌∷◌, Text,
  ltb, ◌==ℕ◌, if◌then◌else◌,
}

abbrev pub max_u64 : ℕ
max_u64 = 2 ^ 64 - 1

abbrev pub max_u16 : ℕ
max_u16 = 2 ^ 16 - 1

-- The digits of `n` in front of `out`, one for each unit of fuel at most.
unfoldable pub digits : ℕ → ℕ → Text → Text
digits zero n out = out
digits (suc fuel) n out = elim (ltb n 10) [
  | true ↦ (b'0' + n) ∷ out
  | false ↦ digits fuel (n / 10) ((b'0' + n % 10) ∷ out)
]

-- `Display` of an unsigned integer below 2 ^ 64: twenty digits are enough.
unfoldable pub decimal : ℕ → Text
unfolding digits
decimal n = digits 20 n []

-- The digits of a text behind the value `n`, by checked arithmetic in a type whose greatest value
-- is `max_value`.
unfoldable pub scan : ℕ → Text → ℕ → Option ℕ
scan max_value [] n = some n
scan max_value (c ∷ s) n =
    let m = n * 10 + (c - b'0') in
    let rest = scan max_value s m in
    if ltb c b'0' || ltb b'9' c || ltb max_value m then none else rest

-- `str::parse` into such a type: one `+` may stand in front of the digits.
unfoldable pub parse_uint : ℕ → Text → Option ℕ
unfolding scan
parse_uint max_value [] = none
parse_uint max_value (c ∷ []) = scan max_value (c ∷ []) 0
parse_uint max_value (c ∷ d ∷ s) = scan max_value (if c ==ℕ b'+' then d ∷ s else c ∷ d ∷ s) 0
