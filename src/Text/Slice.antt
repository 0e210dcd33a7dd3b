-- ===== src/Text/Slice.antt =====
-- `&s[..n]`, which counts in bytes.
use mathlib.Core.Option
use simple_sandbox_public.Prelude.{
  ℕ, ◌+◌, ◌-◌, ◌≡◌, refl, ap, ◌∙◌, Option, none, some, [], ◌∷◌, ◌++◌, Text, length, length-append,
  inl, inr, Bool-cases, Option-cases, ltb, ◌<◌, ◌≤◌, ◌==ℕ◌, if◌then◌else◌, arith,
}
use simple_sandbox_public.Text.Utf8.{encode_char, as_bytes}

-- The part of a text before its byte `n`. It is `none`, a panic, if the byte is inside a character
-- or behind the end.
unfoldable pub slice_to : ℕ → Text → Option Text
slice_to n [] = if n ==ℕ 0 then some [] else none
slice_to n (c ∷ s) =
    let width = length (encode_char c) in
    let rest = Option.map (λ t. c ∷ t) (slice_to (n - width) s) in
    if n ==ℕ 0 then some [] else if ltb n width then none else rest

width-pos : (c : ℕ) → 0 < length (encode_char c)
unfolding encode_char
width-pos c = ground arith

slice_to-cons :
    (n m c : ℕ) (s : Text)
    → n ≡ length (encode_char c) + m
    → slice_to n (c ∷ s) ≡ Option.map (λ t. c ∷ t) (slice_to m s)
unfolding slice_to
slice_to-cons n m c s e =
    let same : n - length (encode_char c) ≡ m = omega arith in
    ground (arith, width-pos c, ap (λ k. slice_to k s) same)

slice_to-short :
    (n c : ℕ) (s : Text) → 0 < n → n < length (encode_char c) → slice_to n (c ∷ s) ≡ none
unfolding slice_to
slice_to-short n c s h k = ground arith

size_cons :
    (n c : ℕ) (q : Text)
    → length (encode_char c) ≤ n
    → length (as_bytes q) ≡ n - length (encode_char c)
    → length (as_bytes (c ∷ q)) ≡ n
unfolding as_bytes
size_cons n c q h e = omega (arith, length-append (encode_char c) (as_bytes q))

-- A slice is a prefix of that many bytes, and every such prefix is a slice.
pub slice_to-eq-some :
    (n : ℕ) (s p : Text)
    → slice_to n s ≡ some p
    → (rest : Text) × (s ≡ p ++ rest) × (length (as_bytes p) ≡ n)
slice_to-eq-some n [] p e = elim (Bool-cases (n ==ℕ 0)) [
  | inl z ↦
      let same : [] ≡ p = unfold slice_to in ground arith in
      ([], rw (← same) refl, rw (← same) (unfold as_bytes in ground arith))
  | inr z ↦ absurd (unfold slice_to in ground arith)
]
slice_to-eq-some n (c ∷ s) p e = elim (Bool-cases (n ==ℕ 0)) [
  | inl z ↦
      let same : [] ≡ p = unfold slice_to in ground arith in
      (c ∷ s, rw (← same) refl, rw (← same) (unfold as_bytes in ground arith))
  | inr z ↦ elim (Bool-cases (ltb n (length (encode_char c)))) [
    | inl short ↦ cc (slice_to-short n c s (ground arith) (ground arith), e)
    | inr enough ↦
        let step = slice_to-cons n (n - length (encode_char c)) c s (ground arith) in
        elim (Option-cases (slice_to (n - length (encode_char c)) s)) [
          | inl h ↦ cc (step ∙ ap (Option.map (λ t. c ∷ t)) h, e)
          | inr (q, h) ↦
              let same : c ∷ q ≡ p = cc (step ∙ ap (Option.map (λ t. c ∷ t)) h, e) in
              let (rest, split, size) = slice_to-eq-some (n - length (encode_char c)) s q h in
              (
                rest,
                rw (← same) (ap (λ t. c ∷ t) split),
                rw (← same) (size_cons n c q (ground arith) size),
              )
        ]
  ]
]

pub slice_to-append : (p rest : Text) → slice_to (length (as_bytes p)) (p ++ rest) ≡ some p
unfolding as_bytes
slice_to-append [] [] = unfold slice_to in refl
slice_to-append [] (c ∷ rest) = unfold slice_to in refl
slice_to-append (c ∷ p) rest =
    slice_to-cons (length (encode_char c ++ as_bytes p)) (length (as_bytes p)) c (p ++ rest)
      (length-append (encode_char c) (as_bytes p))
    ∙ ap (Option.map (λ t. c ∷ t)) (slice_to-append p rest)
