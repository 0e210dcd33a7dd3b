-- ===== src/Text/Utf8.antt =====
-- UTF-8, as Rust's `str` has it: the bytes of a text, and the text of bytes that are valid.
pub mod Laws
mod Tests
use mathlib.Core.Option
use simple_sandbox_public.Prelude.{
  ℕ, zero, suc, ◌+◌, ◌-◌, ◌*◌, ◌/◌, ◌%◌, Bool, ◌&&◌, ◌||◌, Option, none, some, List, [], ◌∷◌, ◌++◌,
  Text, ltb, leb, if◌then◌else◌, ◌==ℕ◌,
}

-- A Unicode scalar value.
unfoldable pub is_scalar : ℕ → Bool
is_scalar c = ltb c 0xD800 || (leb 0xE000 c && ltb c 0x110000)

-- The bytes of a character.
unfoldable pub encode_char : ℕ → List ℕ
encode_char c =
    if ltb c 0x80
    then c ∷ []
    else if ltb c 0x800
    then (0xC0 + c / 64) ∷ (0x80 + c % 64) ∷ []
    else if ltb c 0x10000
    then (0xE0 + c / 4096) ∷ (0x80 + c / 64 % 64) ∷ (0x80 + c % 64) ∷ []
    else (0xF0 + c / 262144) ∷ (0x80 + c / 4096 % 64) ∷ (0x80 + c / 64 % 64) ∷ (0x80 + c % 64) ∷ []

-- `str::as_bytes`
unfoldable pub as_bytes : Text → List ℕ
unfolding encode_char
as_bytes [] = []
as_bytes (c ∷ s) = encode_char c ++ as_bytes s

-- A character that has begun: how many bytes it still has, its value so far, and the least value
-- that needs as many bytes.
pub record Partial : Type 0 where
  pub pending : ℕ
  pub value : ℕ
  pub least : ℕ

abbrev pub between : Partial
between = record { pending = 0; value = 0; least = 0 }

-- The first byte of a character.
unfoldable pub lead : ℕ → Option (Partial × Text)
lead b =
    if ltb b 0x80
    then some (between, b ∷ [])
    else if ltb b 0xC0
    then none
    else if ltb b 0xE0
    then some (record { pending = 1; value = b - 0xC0; least = 0x80 }, [])
    else if ltb b 0xF0
    then some (record { pending = 2; value = b - 0xE0; least = 0x800 }, [])
    else if ltb b 0xF8
    then some (record { pending = 3; value = b - 0xF0; least = 0x10000 }, [])
    else none

-- A last character's value, if it is one and was not written too long.
unfoldable pub complete : ℕ → ℕ → Option (Partial × Text)
unfolding is_scalar
complete least v = if leb least v && is_scalar v then some (between, v ∷ []) else none

-- A byte behind the first one, with the number of bytes that follow it.
unfoldable pub continue : ℕ → Partial → ℕ → Option (Partial × Text)
unfolding complete
continue left p b =
    let v = p.value * 64 + (b - 0x80) in
    if leb 0x80 b && ltb b 0xC0
    then elim left [
      | zero ↦ complete p.least v
      | suc n ↦ some (record { pending = suc n; value = v; least = p.least }, [])
    ]
    else none

unfoldable pub next_byte : Partial → ℕ → Option (Partial × Text)
unfolding lead continue
next_byte p b = elim p.pending [ zero ↦ lead b | suc n ↦ continue n p b ]

unfoldable pub decode : Partial → List ℕ → Option Text
unfolding next_byte
decode p [] = if p.pending ==ℕ 0 then some [] else none
decode p (b ∷ bs) = elim (next_byte p b) [
  | none ↦ none
  | some (p', out) ↦ Option.map (λ s. out ++ s) (decode p' bs)
]

-- `str::from_utf8`
unfoldable pub from_utf8 : List ℕ → Option Text
unfolding decode
from_utf8 bs = decode between bs
