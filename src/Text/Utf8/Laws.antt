-- ===== src/Text/Utf8/Laws.antt =====
-- The bytes of a text are read back as the text.
use mathlib.Core.Option
use simple_sandbox_public.Prelude.{
  ℕ, suc, ◌+◌, ◌*◌, ◌/◌, ◌%◌, ◌≤◌, ◌<◌, ◌≡◌, refl, ap, ◌∙◌, true, Option, none, some, List, [], ◌∷◌,
  ◌++◌, Text, arith, All, Bool-cases, inl, inr, ltb,
}
use simple_sandbox_public.Text.Utf8.{
  is_scalar, encode_char, as_bytes, Partial, between, lead, complete, continue, next_byte, decode,
  from_utf8,
}

abbrev pub IsScalar : ℕ → Type 0
IsScalar c = is_scalar c ≡ true

abbrev partial : ℕ → ℕ → ℕ → Partial
partial n v least = record { pending = n; value = v; least = least }

decode_step :
    (p p' : Partial) (out : Text) (b : ℕ) (bs : List ℕ)
    → next_byte p b ≡ some (p', out)
    → decode p (b ∷ bs) ≡ Option.map (λ s. out ++ s) (decode p' bs)
unfolding decode
decode_step p p' out b bs e = rw (e, decode)

map_empty : (o : Option Text) → Option.map (λ s. [] ++ s) o ≡ o
map_empty none = refl
map_empty (some s) = refl

-- A byte that completes no character.
decode_inner :
    (p p' : Partial) (b : ℕ) (bs : List ℕ)
    → next_byte p b ≡ some (p', [])
    → decode p (b ∷ bs) ≡ decode p' bs
decode_inner p p' b bs e = decode_step p p' [] b bs e ∙ map_empty (decode p' bs)

continue_inner :
    (n v least b : ℕ)
    → b < 64
    → next_byte (partial (suc (suc n)) v least) (0x80 + b)
      ≡ some (partial (suc n) (v * 64 + b) least, [])
unfolding next_byte continue
continue_inner n v least b h = ground arith

continue_last :
    (v least b c : ℕ)
    → b < 64
    → v * 64 + b ≡ c
    → least ≤ c
    → IsScalar c
    → next_byte (partial 1 v least) (0x80 + b) ≡ some (between, c ∷ [])
unfolding next_byte continue complete
continue_last v least b c h e l s = ground arith

lead_one : (c : ℕ) → c < 0x80 → next_byte between c ≡ some (between, c ∷ [])
unfolding next_byte lead
lead_one c h = ground arith

lead_two : (a : ℕ) → a < 32 → next_byte between (0xC0 + a) ≡ some (partial 1 a 0x80, [])
unfolding next_byte lead
lead_two a h = ground arith

lead_three : (a : ℕ) → a < 16 → next_byte between (0xE0 + a) ≡ some (partial 2 a 0x800, [])
unfolding next_byte lead
lead_three a h = ground arith

lead_four : (a : ℕ) → a < 8 → next_byte between (0xF0 + a) ≡ some (partial 3 a 0x10000, [])
unfolding next_byte lead
lead_four a h = ground arith

-- The bytes of a character of each width.
decode_one :
    (c : ℕ) (bs : List ℕ)
    → c < 0x80
    → decode between (c ∷ bs) ≡ Option.map (λ s. c ∷ s) (decode between bs)
decode_one c bs h = decode_step _ _ _ c bs (lead_one c h)

decode_two :
    (c : ℕ) (bs : List ℕ)
    → IsScalar c
    → 0x80 ≤ c
    → c < 0x800
    → decode between ((0xC0 + c / 64) ∷ (0x80 + c % 64) ∷ bs)
      ≡ Option.map (λ s. c ∷ s) (decode between bs)
decode_two c bs s l h =
    decode_inner _ _ _ _ (lead_two (c / 64) (omega arith))
    ∙ decode_step _ _ _ _ bs
        (continue_last (c / 64) 0x80 (c % 64) c (omega arith) (omega arith) l s)

decode_three :
    (c : ℕ) (bs : List ℕ)
    → IsScalar c
    → 0x800 ≤ c
    → c < 0x10000
    → decode between ((0xE0 + c / 4096) ∷ (0x80 + c / 64 % 64) ∷ (0x80 + c % 64) ∷ bs)
      ≡ Option.map (λ s. c ∷ s) (decode between bs)
decode_three c bs s l h =
    decode_inner _ _ _ _ (lead_three (c / 4096) (omega arith))
    ∙ decode_inner _ _ _ _ (continue_inner 0 (c / 4096) 0x800 (c / 64 % 64) (omega arith))
    ∙ decode_step _ _ _ _ bs (
        continue_last (c / 4096 * 64 + c / 64 % 64) 0x800 (c % 64) c (omega arith) (omega arith) l
          s)

scalar-lt : (c : ℕ) → IsScalar c → c < 0x110000
unfolding is_scalar
scalar-lt c h = ground arith

decode_four :
    (c : ℕ) (bs : List ℕ)
    → IsScalar c
    → 0x10000 ≤ c
    → decode between
        ((0xF0 + c / 262144) ∷ (0x80 + c / 4096 % 64) ∷ (0x80 + c / 64 % 64) ∷ (0x80 + c % 64) ∷ bs)
      ≡ Option.map (λ s. c ∷ s) (decode between bs)
decode_four c bs s l =
    let small = scalar-lt c s in
    decode_inner _ _ _ _ (lead_four (c / 262144) (omega arith))
    ∙ decode_inner _ _ _ _ (continue_inner 1 (c / 262144) 0x10000 (c / 4096 % 64) (omega arith))
    ∙ decode_inner _ _ _ _
        (continue_inner 0 (c / 262144 * 64 + c / 4096 % 64) 0x10000 (c / 64 % 64) (omega arith))
    ∙ decode_step _ _ _ _ bs (
        continue_last ((c / 262144 * 64 + c / 4096 % 64) * 64 + c / 64 % 64) 0x10000 (c % 64) c
          (omega arith) (omega arith) l s)

decode-encode_char :
    (c : ℕ) (bs : List ℕ)
    → IsScalar c
    → decode between (encode_char c ++ bs) ≡ Option.map (λ s. c ∷ s) (decode between bs)
decode-encode_char c bs s = elim (Bool-cases (ltb c 0x80)) [
  | inl h ↦ unfold encode_char in rw h (decode_one c bs (ground arith))
  | inr h ↦ elim (Bool-cases (ltb c 0x800)) [
    | inl k ↦ unfold encode_char in rw (h, k) (decode_two c bs s (ground arith) (ground arith))
    | inr k ↦ elim (Bool-cases (ltb c 0x10000)) [
      | inl l ↦
          unfold encode_char in rw (h, k, l) (decode_three c bs s (ground arith) (ground arith))
      | inr l ↦ unfold encode_char in rw (h, k, l) (decode_four c bs s (ground arith))
    ]
  ]
]

-- The bytes of a text of scalar values are valid UTF-8, and stand for the text.
pub from_utf8-as_bytes : (s : Text) → All IsScalar s → from_utf8 (as_bytes s) ≡ some s
unfolding from_utf8 as_bytes
from_utf8-as_bytes [] h = refl
from_utf8-as_bytes (c ∷ s) (h, hs) =
    decode-encode_char c (as_bytes s) h ∙ ap (Option.map (λ t. c ∷ t)) (from_utf8-as_bytes s hs)
