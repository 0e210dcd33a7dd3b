-- ===== src/Policy/Size/Laws.antt =====
-- `parse_size` accepts exactly the texts of a small grammar, with the value that they denote.
use simple_sandbox_public.Prelude.{
  ℕ, ◌*◌, ◌^◌, ◌≤◌, ◌<◌, ◌≡◌, refl, ap, sym, subst, ◌∙◌, ◌≢◌, ◌↔◌, ◌⊎◌, inl, inr, none, some, [],
  ◌∷◌, ◌++◌, arith, Text, All, Bool-cases, Option-cases, ◌==ℕ◌, ◌||◌,
}
use simple_sandbox_public.Result.{ok, err}
use simple_sandbox_public.Text.{trim}
use simple_sandbox_public.Text.Decimal.{max_u64, parse_uint}
use simple_sandbox_public.Text.Decimal.Number.{
  IsNumber, IsNumeric, parse_uint_sound, parse_uint_complete, IsNumber-All-IsNumeric,
  IsNumber-ne-nil,
}
use simple_sandbox_public.Policy.Size.{
  multiplier, split_last, split_unit, parse_parts, parse_trimmed, parse_size, size_overflow,
}

-- The unit letters, in both cases, and the powers of two that they stand for.
pub data IsUnit : ℕ → ℕ → Type 0 where
  kilo : {b m : ℕ} → (b ≡ b'K') ⊎ (b ≡ b'k') → m ≡ 2 ^ 10 → IsUnit b m
  mega : {b m : ℕ} → (b ≡ b'M') ⊎ (b ≡ b'm') → m ≡ 2 ^ 20 → IsUnit b m
  giga : {b m : ℕ} → (b ≡ b'G') ⊎ (b ≡ b'g') → m ≡ 2 ^ 30 → IsUnit b m
  tera : {b m : ℕ} → (b ≡ b'T') ⊎ (b ≡ b't') → m ≡ 2 ^ 40 → IsUnit b m

-- A number of bytes, or a number with a unit behind it.
pub data IsSize (s : Text) (v : ℕ) : Type 0 where
  bytes : IsNumber s v → IsSize s v
  units :
      (front : Text) (b m n : ℕ)
      → s ≡ front ++ b ∷ []
      → IsUnit b m
      → IsNumber front n
      → v ≡ n * m
      → IsSize s v

multiplier_sound : (b m : ℕ) → multiplier b ≡ some m → IsUnit b m
unfolding multiplier
multiplier_sound b m h = elim (Bool-cases (b ==ℕ b'K' || b ==ℕ b'k')) [
  | inl e ↦ kilo (ground arith) (ground arith)
  | inr nk ↦ elim (Bool-cases (b ==ℕ b'M' || b ==ℕ b'm')) [
    | inl e ↦ mega (ground arith) (ground arith)
    | inr nm ↦ elim (Bool-cases (b ==ℕ b'G' || b ==ℕ b'g')) [
      | inl e ↦ giga (ground arith) (ground arith)
      | inr ng ↦ tera (ground arith) (ground arith)
    ]
  ]
]

multiplier_complete : {b m : ℕ} → IsUnit b m → multiplier b ≡ some m
unfolding multiplier
multiplier_complete (kilo e f) = ground arith
multiplier_complete (mega e f) = ground arith
multiplier_complete (giga e f) = ground arith
multiplier_complete (tera e f) = ground arith

multiplier_of_IsNumeric : (b : ℕ) → IsNumeric b → multiplier b ≡ none
unfolding multiplier
multiplier_of_IsNumeric b h = ground arith

split_last-concat : (s : Text) (c : ℕ) → split_last (s ++ c ∷ []) ≡ some (s, c)
unfolding split_last
split_last-concat [] c = refl
split_last-concat (d ∷ []) c = refl
split_last-concat (d ∷ e ∷ s) c = rw (split_last-concat (e ∷ s) c)

split_last_sound : (s front : Text) (c : ℕ) → split_last s ≡ some (front, c) → s ≡ front ++ c ∷ []
unfolding split_last
split_last_sound [] front c h = cc
split_last_sound (d ∷ []) front c h = ground arith
split_last_sound (d ∷ e ∷ s) front c h = elim (Option-cases (split_last (e ∷ s))) [
  | inl p ↦ ground arith
  | inr ((f, b), p) ↦ ground (arith, split_last_sound (e ∷ s) f b p)
]

All-last : (front : Text) (c : ℕ) → All IsNumeric (front ++ c ∷ []) → IsNumeric c
All-last [] c h = h.0
All-last (d ∷ front) c h = All-last front c h.1

-- A number has no unit behind it.
split_unit_of_IsNumber : {s : Text} {v : ℕ} → IsNumber s v → split_unit s ≡ (s, 1)
unfolding split_unit
split_unit_of_IsNumber {s} n = elim (Option-cases (split_last s)) [
  | inl p ↦ ground arith
  | inr ((f, b), p) ↦
      let numeric =
        All-last f b
          (subst (All IsNumeric) (split_last_sound s f b p) (IsNumber-All-IsNumeric n)) in
      ground (arith, multiplier_of_IsNumeric b numeric)
]

split_unit_of_units :
    (front : Text) (b m : ℕ) → IsUnit b m → split_unit (front ++ b ∷ []) ≡ (front, m)
unfolding split_unit
split_unit_of_units front b m u = ground (arith, split_last-concat front b, multiplier_complete u)

parse_parts_complete :
    (s num : Text) (m n : ℕ)
    → IsNumber num n
    → n ≤ max_u64
    → n * m ≤ max_u64
    → parse_parts s (num, m) ≡ ok (n * m)
unfolding parse_parts
parse_parts_complete s num m n read fits fits' =
    rw (parse_uint_complete max_u64 num n read fits) (ground arith)

parse_parts_overflow :
    (s num : Text) (m n : ℕ)
    → IsNumber num n
    → n ≤ max_u64
    → max_u64 < n * m
    → parse_parts s (num, m) ≡ err (size_overflow s)
unfolding parse_parts
parse_parts_overflow s num m n read fits over =
    rw (parse_uint_complete max_u64 num n read fits) (ground arith)

parse_parts_sound :
    (s num : Text) (m v : ℕ)
    → parse_parts s (num, m) ≡ ok v
    → (n : ℕ) × IsNumber num n × (v ≡ n * m) × (v ≤ max_u64)
unfolding parse_parts
parse_parts_sound s num m v h = elim (Option-cases (parse_uint max_u64 num)) [
  | inl p ↦ absurd (ground arith)
  | inr (n, p) ↦ (n, (parse_uint_sound max_u64 num n p).0, ground arith, ground arith)
]

split_unit_cases :
    (s : Text)
    → (split_unit s ≡ (s, 1))
      ⊎ ((front : Text) × (b : ℕ) × (m : ℕ) × (s ≡ front ++ b ∷ [])
          × IsUnit b m
          × (split_unit s ≡ (front, m)))
unfolding split_unit
split_unit_cases s = elim (Option-cases (split_last s)) [
  | inl p ↦ inl (ground arith)
  | inr ((f, b), p) ↦ elim (Option-cases (multiplier b)) [
    | inl q ↦ inl (ground arith)
    | inr (m, q) ↦ inr (f, b, m, split_last_sound s f b p, multiplier_sound b m q, ground arith)
  ]
]

parse_trimmed_of_parts :
    (s num : Text) (m : ℕ)
    → s ≢ []
    → split_unit s ≡ (num, m)
    → parse_trimmed s ≡ parse_parts s (num, m)
unfolding parse_trimmed
parse_trimmed_of_parts [] num m h e = absurd (h refl)
parse_trimmed_of_parts (c ∷ s) num m h e = ap (parse_parts (c ∷ s)) e

parse_trimmed_sound :
    (s : Text) (v : ℕ) → s ≢ [] → parse_trimmed s ≡ ok v → IsSize s v × (v ≤ max_u64)
parse_trimmed_sound s v h e = elim (split_unit_cases s) [
  | inl p ↦
      let (n, number, value, fits) =
        parse_parts_sound s s 1 v (sym (parse_trimmed_of_parts s s 1 h p) ∙ e) in
      (bytes (subst (IsNumber s) (omega arith) number), fits)
  | inr (f, b, m, shape, unit, p) ↦
      let (n, number, value, fits) =
        parse_parts_sound s f m v (sym (parse_trimmed_of_parts s f m h p) ∙ e) in
      (units f b m n shape unit number value, fits)
]

concat-ne-nil : (front : Text) (b : ℕ) → front ++ b ∷ [] ≢ []
concat-ne-nil [] b e = cc
concat-ne-nil (c ∷ front) b e = cc

factor-le : (n m : ℕ) → n * m ≤ max_u64 → 1 ≤ m → n ≤ max_u64
factor-le n m h k = grind arith

IsUnit-pos : {b m : ℕ} → IsUnit b m → 1 ≤ m
IsUnit-pos (kilo e f) = omega arith
IsUnit-pos (mega e f) = omega arith
IsUnit-pos (giga e f) = omega arith
IsUnit-pos (tera e f) = omega arith

accepted-ne-nil : (s : Text) (v : ℕ) → parse_trimmed s ≡ ok v → s ≢ []
unfolding parse_trimmed
accepted-ne-nil [] v h e = cc
accepted-ne-nil (c ∷ s) v h e = cc

parse_trimmed_complete : (s : Text) (v : ℕ) → IsSize s v → v ≤ max_u64 → parse_trimmed s ≡ ok v
parse_trimmed_complete s v (bytes n) fits =
    parse_trimmed_of_parts s s 1 (IsNumber-ne-nil n) (split_unit_of_IsNumber n)
    ∙ parse_parts_complete s s 1 v n fits (omega arith)
    ∙ ap ok (omega arith)
parse_trimmed_complete s v (units f b m n shape unit number value) fits =
    let fits' : n * m ≤ max_u64 = omega arith in
    parse_trimmed_of_parts s f m (λ e. concat-ne-nil f b (sym shape ∙ e))
      (rw shape (split_unit_of_units f b m unit))
    ∙ parse_parts_complete s f m n number (factor-le n m fits' (IsUnit-pos unit)) fits'
    ∙ ap ok (sym value)

-- A memory size is accepted, with value v, exactly when the trimmed text is a number of bytes that
-- denotes v, or a number with one unit letter (K, M, G or T, in either case) whose product with
-- that power of two is v, and v fits 64 bits.
pub parse_size_iff :
    (s : Text) (v : ℕ) → (parse_size s ≡ ok v) ↔ (IsSize (trim s) v × (v ≤ max_u64))
unfolding parse_size
parse_size_iff s v = (
  λ e. parse_trimmed_sound (trim s) v (accepted-ne-nil (trim s) v e) e,
  λ h. parse_trimmed_complete (trim s) v h.0 h.1,
)

-- A size whose number fits 64 bits and whose product with its unit does not is refused as an
-- overflow: it never wraps around.
pub parse_size_overflow :
    (s front : Text) (b m n : ℕ)
    → trim s ≡ front ++ b ∷ []
    → IsUnit b m
    → IsNumber front n
    → n ≤ max_u64
    → max_u64 < n * m
    → parse_size s ≡ err (size_overflow (trim s))
unfolding parse_size
parse_size_overflow s f b m n shape unit number fits over =
    parse_trimmed_of_parts (trim s) f m (λ e. concat-ne-nil f b (sym shape ∙ e))
      (rw shape (split_unit_of_units f b m unit))
    ∙ parse_parts_overflow (trim s) f m n number fits over
