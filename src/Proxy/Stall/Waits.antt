-- ===== src/Proxy/Stall/Waits.antt =====
-- The proxy waits for ever exactly for a client that sends no blank line behind its request line
-- (crates/sandbox-proxy/src/lib.rs).
use simple_sandbox_public.Prelude.{
  ℕ, zero, suc, ◌<◌, ◌≡◌, refl, subst, ◌⊎◌, inl, inr, ◌↔◌, Bool, true, false, none, some, List, [],
  ◌∷◌, ◌++◌, Text, text_eq, arith, length, length-append, Bool-cases,
}
use simple_sandbox_public.Text.Laws.{Lacks}
use simple_sandbox_public.Text.{split_whitespace}
use simple_sandbox_public.Proxy.{Outcome, serve_request}
use simple_sandbox_public.Proxy.Reader.{BufReader, ends_headers, remaining, total}
use simple_sandbox_public.Proxy.Stall.{next_line, drain_open, answer_open, handle_open}
use simple_sandbox_public.Proxy.Stall.Lines.{
  joined, unread, Begins, next_from_cases, Begins-same, Lacks-Begins, Begins-length,
}

-- A line, with its line feed, that ends the headers.
abbrev pub IsBlank : Text → Type 0
IsBlank l = (l ≡ 10 ∷ []) ⊎ (l ≡ 13 ∷ 10 ∷ [])

-- One of the lines is blank.
pub data HasBlank : Text → Type 0 where
  at_once :
      {s : Text} (line rest : Text) → Begins s line rest → IsBlank (line ++ 10 ∷ []) → HasBlank s
  later : {s : Text} (line rest : Text) → Begins s line rest → HasBlank rest → HasBlank s

ends_headers-IsBlank :
    (line : Text) → ends_headers (line ++ 10 ∷ []) ≡ true → IsBlank (line ++ 10 ∷ [])
unfolding ends_headers text_eq
ends_headers-IsBlank [] e = inl refl
ends_headers-IsBlank (c ∷ []) e = inr (ground arith)
ends_headers-IsBlank (c ∷ d ∷ []) e = absurd (ground arith)
ends_headers-IsBlank (c ∷ d ∷ f ∷ l) e = absurd (ground arith)

IsBlank-ends_headers :
    (line : Text) → IsBlank (line ++ 10 ∷ []) → ends_headers (line ++ 10 ∷ []) ≡ true
unfolding ends_headers text_eq
IsBlank-ends_headers line (inl e) = rw e refl
IsBlank-ends_headers line (inr e) = rw e refl

HasBlank-Lacks : (s : Text) → Lacks 10 s → HasBlank s → ⊥
HasBlank-Lacks s h (at_once line rest b k) = Lacks-Begins s line rest h b
HasBlank-Lacks s h (later line rest b k) = Lacks-Begins s line rest h b

HasBlank-Begins :
    {s line rest : Text}
    → Begins s line rest
    → ends_headers (line ++ 10 ∷ []) ≡ false
    → HasBlank s
    → HasBlank rest
HasBlank-Begins {line = line} b e (at_once line' rest' b' k) =
    let same = (Begins-same b' b).0 in
    absurd (cc (e, IsBlank-ends_headers line (subst IsBlank same k)))
HasBlank-Begins b e (later line' rest' b' k) = subst HasBlank (Begins-same b' b).1 k

-- The loop over the headers waits exactly where no blank line has come.
drain_open_cases :
    (fuel : ℕ) (r : BufReader)
    → length (unread r) < fuel
    → ((drain_open fuel r ≡ none) × (HasBlank (unread r) → ⊥))
      ⊎ ((r' : BufReader) × (drain_open fuel r ≡ some r') × HasBlank (unread r))
unfolding drain_open next_line
drain_open_cases zero r h = absurd (omega arith)
drain_open_cases (suc fuel) r h = elim (next_from_cases r.buffer r.chunks) [
  | inl (e, lacks) ↦ inl (rw (e, drain_open) refl, λ b. HasBlank-Lacks _ lacks b)
  | inr (line, r', e, b) ↦ elim (Bool-cases (ends_headers (line ++ 10 ∷ []))) [
    | inl p ↦ inr (r', rw (e, p, drain_open) refl, at_once line _ b (ends_headers-IsBlank line p))
    | inr p ↦ elim (drain_open_cases fuel r' (omega (arith, Begins-length b))) [
      | inl (f, never) ↦ inl (rw (e, p, drain_open) f, λ k. never (HasBlank-Begins b p k))
      | inr (r'', f, k) ↦ inr (r'', rw (e, p, drain_open) f, later line _ b k)
    ]
  ]
]

length-joined : (cs : List Text) → length (joined cs) ≡ total cs
length-joined [] = refl
length-joined (c ∷ cs) = omega (arith, length-append c (joined cs), length-joined cs)

enough : (r : BufReader) → length (unread r) < suc (remaining r)
enough r = omega (arith, length-append r.buffer (joined r.chunks), length-joined r.chunks)

-- A request line, and a blank line behind it.
pub record IsRequest (s : Text) : Type 0 where
  pub line : Text
  pub rest : Text
  pub begins : Begins s line rest
  pub blank : HasBlank rest

module _ (allow : List Text) (connects : Text → Bool) where
  -- A client that does not close the connection is answered exactly if it has sent its request
  -- line and, somewhere behind it, a blank line; to any other `handle_client` gives no answer
  -- before more comes, however long that takes.
  pub handle_open_iff :
      (chunks : List Text)
      → ((o : Outcome) × (handle_open allow connects chunks ≡ some o)) ↔ IsRequest (joined chunks)
  unfolding handle_open next_line answer_open
  handle_open_iff chunks = elim (next_from_cases [] chunks) [
    | inl (e, lacks) ↦ (
      (λ (o, f).
          let never : handle_open allow connects chunks ≡ none = rw (e, handle_open) refl in cc),
      λ q. absurd (Lacks-Begins _ q.line q.rest lacks q.begins),
    )
    | inr (line, r, e, b) ↦ elim (drain_open_cases (suc (remaining r)) r (enough r)) [
      | inl (f, never) ↦ (
        (λ (o, g).
            let none' : handle_open allow connects chunks ≡ none =
              rw (e, f, handle_open, answer_open) refl in
            cc),
        λ q. absurd (never (subst HasBlank (Begins-same q.begins b).1 q.blank)),
      )
      | inr (r', f, k) ↦ (
        (λ _. record { line = line; rest = unread r; begins = b; blank = k }),
        λ _. (
          serve_request allow connects (split_whitespace (line ++ 10 ∷ [])) r',
          rw (e, f, handle_open, answer_open) refl,
        ),
      )
    ]
  ]
