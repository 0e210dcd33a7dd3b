-- ===== src/Proxy/Reader/Laws.antt =====
-- Draining the headers ends: the fuel is enough, whatever the client sends
-- (crates/sandbox-proxy/src/lib.rs).
use simple_sandbox_public.Prelude.{
  ℕ, zero, suc, ◌+◌, ◌≤◌, ◌<◌, ◌≡◌, refl, inl, inr, true, false, some, List, [], ◌∷◌, ◌++◌, Text,
  text_eq, arith, length, length-append, Bool-cases, Option-cases, ◌∙◌, ap, All,
}
use simple_sandbox_public.Prelude.Order.{le_or_lt}
use simple_sandbox_public.Text.Laws.{Lacks}
use simple_sandbox_public.Proxy.Reader.{
  BufReader, split_line, read_from, read_line, ends_headers, drain, total, remaining, drain_headers,
}

split_line-length :
    (s line rest : Text) → split_line s ≡ some (line, rest) → length line + length rest ≡ length s
unfolding split_line
split_line-length [] line rest e = cc
split_line-length (c ∷ s) line rest e = elim (Option-cases (split_line s)) [
  | inl p ↦ ground arith
  | inr ((l, r), p) ↦ ground (arith, split_line-length s l r p)
]

-- A line takes its characters out of the stream.
read_from-remaining :
    (buffer : Text) (cs : List Text)
    → length (read_from buffer cs).0 + remaining (read_from buffer cs).1 ≡ length buffer + total cs
unfolding read_from
read_from-remaining buffer [] = elim (Option-cases (split_line buffer)) [
  | inl p ↦ ground arith
  | inr ((l, r), p) ↦ ground (arith, split_line-length buffer l r p)
]
read_from-remaining buffer (c ∷ cs) = elim (Option-cases (split_line buffer)) [
  | inl p ↦ ground (arith, read_from-remaining c cs, length-append buffer (read_from c cs).0)
  | inr ((l, r), p) ↦ ground (arith, split_line-length buffer l r p)
]

goes_on : (line : Text) → ends_headers line ≡ false → 0 < length line
unfolding ends_headers
goes_on [] e = absurd (ground arith)
goes_on (c ∷ line) e = omega arith

read_line-remaining :
    (r : BufReader) → ends_headers (read_line r).0 ≡ false → remaining (read_line r).1 < remaining r
unfolding read_line
read_line-remaining r e =
    omega (arith, goes_on (read_from r.buffer r.chunks).0 e, read_from-remaining r.buffer r.chunks)

drain_total :
    (fuel : ℕ) (r : BufReader) → remaining r < fuel → (r' : BufReader) × (drain fuel r ≡ some r')
unfolding drain
drain_total zero r h = absurd (omega arith)
drain_total (suc fuel) r h = elim (Bool-cases (ends_headers (read_line r).0)) [
  | inl e ↦ ((read_line r).1, rw e)
  | inr e ↦ rw e (drain_total fuel (read_line r).1 (omega (arith, read_line-remaining r e)))
]

-- Whatever the client sends, the loop over the headers ends.
pub drain_headers_total : (r : BufReader) → (r' : BufReader) × (drain_headers r ≡ some r')
unfolding drain_headers
drain_headers_total r = drain_total (suc (remaining r)) r (omega arith)

pub split_line-line : (s t : Text) → Lacks 10 s → split_line (s ++ 10 ∷ t) ≡ some (s ++ 10 ∷ [], t)
unfolding split_line
split_line-line [] t h = refl
split_line-line (c ∷ s) t h = ground (arith, split_line-line s t h.1)

-- A line that lies in the buffer is read from there.
pub read_line_buffered :
    (s t : Text) (cs : List Text)
    → Lacks 10 s
    → read_line (record { buffer = s ++ 10 ∷ t; chunks = cs })
      ≡ (s ++ 10 ∷ [], record { buffer = t; chunks = cs })
unfolding read_line
read_line_buffered s t [] h = rw (split_line-line s t h, read_from)
read_line_buffered s t (c ∷ cs) h = ground (arith, split_line-line s t h)

-- An empty buffer is filled by the next read.
pub read_line_filled :
    (c : Text) (cs : List Text)
    → read_line (record { buffer = []; chunks = c ∷ cs })
      ≡ read_line (record { buffer = c; chunks = cs })
unfolding read_line
read_line_filled c cs = refl

drain_line :
    (fuel : ℕ) (r : BufReader)
    → ends_headers (read_line r).0 ≡ false
    → drain (suc fuel) r ≡ drain fuel (read_line r).1
unfolding drain
drain_line fuel r e = rw e

drain_end :
    (fuel : ℕ) (r : BufReader)
    → ends_headers (read_line r).0 ≡ true
    → drain (suc fuel) r ≡ some (read_line r).1
unfolding drain
drain_end fuel r e = rw e

-- More fuel changes nothing.
drain_more :
    (fuel more : ℕ) (r r' : BufReader)
    → fuel ≤ more
    → drain fuel r ≡ some r'
    → drain more r ≡ some r'
unfolding drain
drain_more zero more r r' h e = cc
drain_more (suc fuel) zero r r' h e = absurd (omega arith)
drain_more (suc fuel) (suc more) r r' h e = elim (Bool-cases (ends_headers (read_line r).0)) [
  | inl p ↦ rw p (rw p at e)
  | inr p ↦ rw p (drain_more fuel more (read_line r).1 r' (omega arith) (rw p at e))
]

-- What any fuel drains, the fuel that is given drains.
pub drain_headers_of_drain :
    (fuel : ℕ) (r r' : BufReader) → drain fuel r ≡ some r' → drain_headers r ≡ some r'
unfolding drain_headers
drain_headers_of_drain fuel r r' e =
    let (q, p) = drain_total (suc (remaining r)) r (omega arith) in
    elim (le_or_lt fuel (suc (remaining r))) [
      | inl h ↦ drain_more fuel (suc (remaining r)) r r' h e
      | inr h ↦ cc (p, e, drain_more (suc (remaining r)) fuel r q (omega arith) p)
    ]

-- Header lines, each closed by a line feed, the blank line, and what the client sent behind it.
abbrev pub headers : List Text → Text → Text
headers [] early = 13 ∷ 10 ∷ early
headers (h ∷ hs) early = h ++ 10 ∷ headers hs early

-- A header line holds no line feed, and is not blank.
abbrev pub IsHeader : Text → Type 0
IsHeader h = Lacks 10 h × (ends_headers (h ++ 10 ∷ []) ≡ false)

drain_one :
    (fuel : ℕ) (s t : Text) (cs : List Text)
    → Lacks 10 s
    → ends_headers (s ++ 10 ∷ []) ≡ false
    → drain (suc fuel) (record { buffer = s ++ 10 ∷ t; chunks = cs })
      ≡ drain fuel (record { buffer = t; chunks = cs })
drain_one fuel s t cs h e =
    let line = read_line_buffered s t cs h in
    drain_line fuel _ (ap (λ x. ends_headers x.0) line ∙ e) ∙ ap (λ x. drain fuel x.1) line

drain_blank :
    (fuel : ℕ) (t : Text) (cs : List Text)
    → drain (suc fuel) (record { buffer = 13 ∷ 10 ∷ t; chunks = cs })
      ≡ some (record { buffer = t; chunks = cs })
drain_blank fuel t cs =
    let line = read_line_buffered (13 ∷ []) t cs (omega arith) in
    drain_end fuel _ (ap (λ x. ends_headers x.0) line ∙ (unfold ends_headers text_eq in refl))
    ∙ ap (λ x. some x.1) line

drain-headers :
    (hs : List Text) (early : Text) (cs : List Text)
    → All IsHeader hs
    → drain (suc (length hs)) (record { buffer = headers hs early; chunks = cs })
      ≡ some (record { buffer = early; chunks = cs })
drain-headers [] early cs h = drain_blank 0 early cs
drain-headers (h ∷ hs) early cs (p, ps) =
    drain_one (suc (length hs)) h (headers hs early) cs p.0 p.1 ∙ drain-headers hs early cs ps

-- Headers that lie in the buffer are drained, and what stands behind them stays there.
pub drain_headers-headers :
    (hs : List Text) (early : Text) (cs : List Text)
    → All IsHeader hs
    → drain_headers (record { buffer = headers hs early; chunks = cs })
      ≡ some (record { buffer = early; chunks = cs })
drain_headers-headers hs early cs h =
    drain_headers_of_drain (suc (length hs)) _ _ (drain-headers hs early cs h)
