-- ===== src/Text/Laws.antt =====
-- Facts on texts: lowercase, trimming, prefixes, and where the last colon of a text stands.
use mathlib.Core.List.{reverse, reverse-reverse}
use simple_sandbox_public.Prelude.{
  ℕ, ◌≡◌, refl, subst, ap, ◌∙◌, ◌≢◌, true, false, some, append_assoc, append-nil, All-reverse, [],
  ◌∷◌, ◌++◌, arith, Text, All,
}
use simple_sandbox_public.Text.{
  lower, to_ascii_lowercase, strip_prefix, is_whitespace, trim_start, trim, contains_char,
  split_words, flush,
}
use simple_sandbox_public.Text.Decimal.Laws.{IsDigit}

lower_idem : (c : ℕ) → lower (lower c) ≡ lower c
unfolding lower
lower_idem c = ground arith

pub to_ascii_lowercase_idem :
    (s : Text) → to_ascii_lowercase (to_ascii_lowercase s) ≡ to_ascii_lowercase s
unfolding to_ascii_lowercase
to_ascii_lowercase_idem [] = refl
to_ascii_lowercase_idem (c ∷ s) = cc (lower_idem c, to_ascii_lowercase_idem s)

pub to_ascii_lowercase-append :
    (s t : Text) → to_ascii_lowercase (s ++ t) ≡ to_ascii_lowercase s ++ to_ascii_lowercase t
unfolding to_ascii_lowercase
to_ascii_lowercase-append [] t = refl
to_ascii_lowercase-append (c ∷ s) t = cc (to_ascii_lowercase-append s t)

pub strip_prefix-append : (p s : Text) → strip_prefix p (p ++ s) ≡ some s
unfolding strip_prefix
strip_prefix-append [] s = refl
strip_prefix-append (c ∷ p) s = ground (arith, strip_prefix-append p s)

pub strip_prefix_sound : (p s : Text) {t : Text} → strip_prefix p s ≡ some t → s ≡ p ++ t
unfolding strip_prefix
strip_prefix_sound [] s h = cc
strip_prefix_sound (c ∷ p) [] h = cc
strip_prefix_sound (c ∷ p) (d ∷ s) {t} h = ground (arith, strip_prefix_sound p s {t = t})

abbrev pub Lacks : ℕ → Text → Type 0
Lacks c = All (λ d. d ≢ c)

pub Lacks-middle : (c : ℕ) (s t : Text) → Lacks c (s ++ c ∷ t) → ⊥
Lacks-middle c [] t h = h.0 refl
Lacks-middle c (d ∷ s) t h = Lacks-middle c s t h.1

-- The text before the last separator, and the text behind it, are determined by the whole.
pub last_separator :
    (c : ℕ) (s s' t t' : Text)
    → Lacks c t
    → Lacks c t'
    → s ++ c ∷ t ≡ s' ++ c ∷ t'
    → (s ≡ s') × (t ≡ t')
last_separator c [] [] t t' h h' e = (refl, cc)
last_separator c [] (d ∷ s') t t' h h' e =
    let q : t ≡ s' ++ c ∷ t' = cc in absurd (Lacks-middle c s' t' (subst (Lacks c) q h))
last_separator c (d ∷ s) [] t t' h h' e =
    let q : t' ≡ s ++ c ∷ t = cc in absurd (Lacks-middle c s t (subst (Lacks c) q h'))
last_separator c (d ∷ s) (d' ∷ s') t t' h h' e =
    let (p, q) = last_separator c s s' t t' h h' (cc) in (cc, q)

-- No character of the text is white space.
abbrev pub IsSolid : Text → Type 0
IsSolid = All (λ c. is_whitespace c ≡ false)

trim_start_of_IsSolid : (s : Text) → IsSolid s → trim_start s ≡ s
unfolding trim_start
trim_start_of_IsSolid [] h = refl
trim_start_of_IsSolid (c ∷ s) h = rw h.0

pub trim_of_IsSolid : (s : Text) → IsSolid s → trim s ≡ s
unfolding trim
trim_of_IsSolid s h =
    rw (trim_start_of_IsSolid s h, trim_start_of_IsSolid (reverse s) (All-reverse _ s h))
      (reverse-reverse s)

pub contains_char-append : (c : ℕ) (s t : Text) → contains_char c (s ++ c ∷ t) ≡ true
unfolding contains_char
contains_char-append c [] t = ground arith
contains_char-append c (d ∷ s) t = ground (arith, contains_char-append c s t)

lower-is_whitespace : (c : ℕ) → is_whitespace c ≡ false → is_whitespace (lower c) ≡ false
unfolding is_whitespace lower
lower-is_whitespace c h = ground arith

pub to_ascii_lowercase-IsSolid : (s : Text) → IsSolid s → IsSolid (to_ascii_lowercase s)
unfolding to_ascii_lowercase
to_ascii_lowercase-IsSolid [] h = tt
to_ascii_lowercase-IsSolid (c ∷ s) (h, hs) =
    (lower-is_whitespace c h, to_ascii_lowercase-IsSolid s hs)

lower_digit : (c : ℕ) → IsDigit c → lower c ≡ c
unfolding lower
lower_digit c h = ground arith

pub to_ascii_lowercase_of_digits : (s : Text) → All IsDigit s → to_ascii_lowercase s ≡ s
unfolding to_ascii_lowercase
to_ascii_lowercase_of_digits [] h = refl
to_ascii_lowercase_of_digits (c ∷ s) (h, hs) =
    cc (lower_digit c h, to_ascii_lowercase_of_digits s hs)

digit-is_whitespace : (c : ℕ) → IsDigit c → is_whitespace c ≡ false
unfolding is_whitespace
digit-is_whitespace c h = ground arith

pub digits-IsSolid : (s : Text) → All IsDigit s → IsSolid s
digits-IsSolid [] h = tt
digits-IsSolid (c ∷ s) (h, hs) = (digit-is_whitespace c h, digits-IsSolid s hs)

pub digits-Lacks : (s : Text) → All IsDigit s → Lacks b':' s
digits-Lacks [] h = tt
digits-Lacks (c ∷ s) (h, hs) = (omega arith, digits-Lacks s hs)

-- A word is cut off at the white space behind it.
pub split_words-append :
    (w : Text) (c : ℕ) (s cur : Text)
    → IsSolid w
    → is_whitespace c ≡ true
    → split_words (w ++ c ∷ s) cur ≡ flush (cur ++ w) (split_words s [])
unfolding split_words
split_words-append [] c s cur h e = rw (e, split_words) (rw append-nil)
split_words-append (d ∷ w) c s cur (h, hs) e =
    rw (h, split_words)
      (split_words-append w c s (cur ++ d ∷ []) hs e
        ∙ ap (λ x. flush x (split_words s [])) (append_assoc cur (d ∷ []) w))
