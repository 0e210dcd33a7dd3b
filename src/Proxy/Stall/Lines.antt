-- ===== src/Proxy/Stall/Lines.antt =====
-- `read_line` on a connection that stays open, by what the client has sent
-- (crates/sandbox-proxy/src/lib.rs).
use mathlib.Core.Option.{some-injective}
use simple_sandbox_public.Prelude.{
  ◌<◌, ◌≡◌, refl, sym, ap, ◌∙◌, subst, ◌⊎◌, inl, inr, none, some, List, [], ◌∷◌, ◌++◌, append_assoc,
  Text, text_eq, arith, length, length-append, Bool-cases, ◌==ℕ◌, All-append,
}
use simple_sandbox_public.Text.Laws.{Lacks}
use simple_sandbox_public.Proxy.Reader.{BufReader, split_line}
use simple_sandbox_public.Proxy.Reader.Laws.{split_line-line}
use simple_sandbox_public.Proxy.Stall.{next_from}

-- What the client sends.
abbrev pub joined : List Text → Text
joined [] = []
joined (c ∷ cs) = c ++ joined cs

abbrev pub unread : BufReader → Text
unread r = r.buffer ++ joined r.chunks

-- A text with its first line, which a line feed closes, and what stands behind it.
pub record Begins (s line rest : Text) : Type 0 where
  pub whole : s ≡ line ++ 10 ∷ rest
  pub one_line : Lacks 10 line

split_line_cases :
    (s : Text)
    → ((split_line s ≡ none) × Lacks 10 s)
      ⊎ ((line : Text) × (rest : Text) × (split_line s ≡ some (line ++ 10 ∷ [], rest))
          × Begins s line rest)
unfolding split_line
split_line_cases [] = inl (refl, tt)
split_line_cases (c ∷ s) =
    let behind = split_line_cases s in
    elim (Bool-cases (c ==ℕ 10)) [
      | inl p ↦
          let feed : c ≡ 10 = ground arith in
          inr ([], s, ground arith, record { whole = rw feed refl; one_line = tt })
      | inr p ↦ elim behind [
        | inl (e, h) ↦ inl (ground arith, (ground arith, h))
        | inr (line, rest, e, b) ↦ inr (
          c ∷ line,
          rest,
          ground arith,
          record { whole = ap (λ t. c ∷ t) b.whole; one_line = (ground arith, b.one_line) },
        )
      ]
    ]

-- More text behind a first line, and in front of one.
Begins-append :
    {s line rest : Text} (t : Text) → Begins s line rest → Begins (s ++ t) line (rest ++ t)
Begins-append {line = line} {rest = rest} t b = record {
  whole = ap (λ x. x ++ t) b.whole ∙ append_assoc line (10 ∷ rest) t;
  one_line = b.one_line;
}

Begins-behind :
    (front : Text) {s line rest : Text}
    → Lacks 10 front
    → Begins s line rest
    → Begins (front ++ s) (front ++ line) rest
Begins-behind front {line = line} {rest = rest} h b = record {
  whole = ap (λ x. front ++ x) b.whole ∙ sym (append_assoc front line (10 ∷ rest));
  one_line = All-append _ front line h b.one_line;
}

-- `read_line` waits where no line feed has come, and gives the first line otherwise.
pub next_from_cases :
    (buffer : Text) (cs : List Text)
    → ((next_from buffer cs ≡ none) × Lacks 10 (buffer ++ joined cs))
      ⊎ ((line : Text) × (r : BufReader) × (next_from buffer cs ≡ some (line ++ 10 ∷ [], r))
          × Begins (buffer ++ joined cs) line (unread r))
unfolding next_from
next_from_cases buffer [] = elim (split_line_cases buffer) [
  | inl (e, h) ↦ inl (rw (e, next_from) refl, All-append _ buffer [] h tt)
  | inr (line, rest, e, b) ↦
      inr (line, record { buffer = rest; chunks = [] }, rw (e, next_from) refl, Begins-append [] b)
]
next_from_cases buffer (c ∷ cs) =
    let behind = next_from_cases c cs in
    elim (split_line_cases buffer) [
      | inr (line, rest, e, b) ↦ inr (
        line,
        record { buffer = rest; chunks = c ∷ cs },
        rw (e, next_from) refl,
        Begins-append (c ++ joined cs) b,
      )
      | inl (e, h) ↦ elim behind [
        | inl (f, k) ↦ inl (rw (e, f, next_from) refl, All-append _ buffer _ h k)
        | inr (line, r, f, b) ↦ inr (
          buffer ++ line,
          r,
          rw (e, f, next_from) (ap (λ x. some (x, r)) (sym (append_assoc buffer line (10 ∷ [])))),
          Begins-behind buffer h b,
        )
      ]
    ]

-- A text has one first line.
pub Begins-same :
    {s line rest line' rest' : Text}
    → Begins s line rest
    → Begins s line' rest'
    → (line ++ 10 ∷ [] ≡ line' ++ 10 ∷ []) × (rest ≡ rest')
Begins-same {s} {line} {rest} {line'} {rest'} b b' =
    let found = ap split_line b.whole ∙ split_line-line line rest b.one_line in
    let found' = ap split_line b'.whole ∙ split_line-line line' rest' b'.one_line in
    let same = some-injective _ _ (sym found ∙ found') in (ap (λ x. x.0) same, ap (λ x. x.1) same)

pub Lacks-Begins : (s line rest : Text) → Lacks 10 s → Begins s line rest → ⊥
Lacks-Begins s line rest h b = never line (subst (Lacks 10) b.whole h)
  where
    never : (l : Text) → Lacks 10 (l ++ 10 ∷ rest) → ⊥
    never [] k = k.0 refl
    never (c ∷ l) k = never l k.1

pub Begins-length : {s line rest : Text} → Begins s line rest → length rest < length s
Begins-length {s} {line} {rest} b = rw b.whole (omega (arith, length-append line (10 ∷ rest)))
