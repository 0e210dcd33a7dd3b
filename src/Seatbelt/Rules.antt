-- ===== src/Seatbelt/Rules.antt =====
-- A profile as the list of its rules (crates/sandbox-mech-mac/src/lib.rs): lists in parentheses, in
-- which a string stands between quotes and a backslash keeps the character behind it.
pub mod Policies
use simple_sandbox_public.Prelude.{
  ℕ, zero, suc, ◌≡◌, ◌≢◌, refl, ap, sym, ◌∙◌, List, [], ◌∷◌, ◌++◌, append_assoc, append-nil, Text,
  ◌==ℕ◌, if◌then◌else◌, arith, All,
}
use simple_sandbox_public.Text.{join_with}
use simple_sandbox_public.Text.Laws.{Lacks}

-- Where a character of a rule stands.
pub data Place : Type 0 where
  code quoted escaped : Place

-- Between the rules, or in one: the lists that are open around the innermost, the place, and the
-- rule as far as it is read.
pub data Scan : Type 0 where
  outside : Scan
  inside : (around : ℕ) (place : Place) (rule : Text) → Scan

-- A closing parenthesis.
abbrev close : ℕ → Text → List Text × Scan
close zero rule = (rule ∷ [], outside)
close (suc around) rule = ([], inside around code rule)

unfoldable pub step : ℕ → Scan → List Text × Scan
step c outside = ([], if c ==ℕ b'(' then inside 0 code (c ∷ []) else outside)
step c (inside around code rule) =
    let rule' = rule ++ c ∷ [] in
    if c ==ℕ b')' then close around rule' else (
      [],
      if c ==ℕ b'('
          then inside (suc around) code rule'
          else inside around (if c ==ℕ b'"' then quoted else code) rule',
    )
step c (inside around quoted rule) =
    let place = if c ==ℕ b'"' then code else if c ==ℕ b'\\' then escaped else quoted in
    ([], inside around place (rule ++ c ∷ []))
step c (inside around escaped rule) = ([], inside around quoted (rule ++ c ∷ []))

-- The rules that end in a text, and the scan behind it.
unfoldable pub scan : Scan → Text → List Text × Scan
unfolding step
scan s [] = ([], s)
scan s (c ∷ t) =
    let (rules, next) = step c s in let (more, last) = scan next t in (rules ++ more, last)

unfoldable pub rules_of : Text → List Text
unfolding scan
rules_of t = (scan outside t).0

-- A text that is one rule.
abbrev pub IsRule : Text → Type 0
IsRule l = scan outside l ≡ (l ∷ [], outside)

-- A path that a string holds as it is.
abbrev pub IsQuotable : Text → Type 0
IsQuotable p = Lacks b'"' p × Lacks b'\\' p

scan-append :
    (s : Scan) (t u : Text)
    → scan s (t ++ u) ≡ ((scan s t).0 ++ (scan (scan s t).1 u).0, (scan (scan s t).1 u).1)
unfolding scan
scan-append s [] u = refl
scan-append s (c ∷ t) u =
    let next = (step c s).1 in
    ap (λ x. ((step c s).0 ++ x.0, x.1)) (scan-append next t u)
    ∙ ap (λ x. (x, (scan (scan next t).1 u).1))
        (sym (append_assoc (step c s).0 (scan next t).0 (scan (scan next t).1 u).0))

step_quoted :
    (around : ℕ) (rule : Text) (c : ℕ)
    → c ≢ b'"'
    → c ≢ b'\\'
    → step c (inside around quoted rule) ≡ ([], inside around quoted (rule ++ c ∷ []))
unfolding step
step_quoted around rule c q b = ground arith

scan_quoted :
    (around : ℕ) (rule p : Text)
    → IsQuotable p
    → scan (inside around quoted rule) p ≡ ([], inside around quoted (rule ++ p))
unfolding scan
scan_quoted around rule [] h = ap (λ r. ([], inside around quoted r)) (sym (append-nil rule))
scan_quoted around rule (c ∷ p) ((q, qs), (b, bs)) =
    ap (λ x. (x.0 ++ (scan x.1 p).0, (scan x.1 p).1)) (step_quoted around rule c q b)
    ∙ scan_quoted around (rule ++ c ∷ []) p (qs, bs)
    ∙ ap (λ r. ([], inside around quoted r)) (append_assoc rule (c ∷ []) p)

-- A path between a text that opens its string and one that closes it.
pub scan_path :
    (s : Scan) (front p back : Text) {around : ℕ}
    → scan s front ≡ ([], inside around quoted front)
    → IsQuotable p
    → scan s (front ++ (p ++ back)) ≡ scan (inside around quoted (front ++ p)) back
scan_path s front p back {around} e h =
    scan-append s front (p ++ back)
    ∙ ap (λ x. (x.0 ++ (scan x.1 (p ++ back)).0, (scan x.1 (p ++ back)).1)) e
    ∙ scan-append (inside around quoted front) p back
    ∙ ap (λ x. (x.0 ++ (scan x.1 back).0, (scan x.1 back).1)) (scan_quoted around front p h)

rules_of-line : (l s : Text) → IsRule l → rules_of (l ++ 10 ∷ s) ≡ l ∷ rules_of s
unfolding rules_of
rules_of-line l s h =
    ap (λ x. x.0)
      (scan-append outside l (10 ∷ s)
        ∙ ap (λ x. (x.0 ++ (scan x.1 (10 ∷ s)).0, (scan x.1 (10 ∷ s)).1)) h)

-- Rules that are joined by line feeds and closed by one are read back.
pub rules_of-join_with :
    (l : Text) (ls : List Text)
    → All IsRule (l ∷ ls)
    → rules_of (join_with (10 ∷ []) (l ∷ ls) ++ 10 ∷ []) ≡ l ∷ ls
unfolding join_with
rules_of-join_with l [] (h, hs) = rules_of-line l [] h ∙ (unfold rules_of in refl)
rules_of-join_with l (l' ∷ ls) (h, hs) =
    ap rules_of (append_assoc l (10 ∷ join_with (10 ∷ []) (l' ∷ ls)) (10 ∷ []))
    ∙ rules_of-line l _ h
    ∙ ap (λ x. l ∷ x) (rules_of-join_with l' ls hs)
