-- ===== src/Proxy/Client.antt =====
-- What a client of the proxy gets (crates/sandbox-proxy/src/lib.rs).
use simple_sandbox_public.Prelude.{
  ℕ, ◌≡◌, refl, sym, ap, ◌∙◌, ◌≢◌, ◌⊎◌, inl, inr, Bool, true, false, Option, none, some, List, [],
  ◌∷◌, Text, text_eq, contains, arith, All, Any, Bool-cases, subst,
}
use simple_sandbox_public.Text.{codes, to_ascii_lowercase, split_whitespace}
use simple_sandbox_public.Proxy.Reader.{BufReader, read_line, drain_headers}
use simple_sandbox_public.Proxy.Reader.Laws.{drain_headers_total}
use simple_sandbox_public.Proxy.AllowSet.{
  IsSolidHost, IsKeyOf, contains-allow_from_endpoints, normalize_allow-endpoints,
}
use simple_sandbox_public.Proxy.{
  Outcome, closed, method_not_allowed, forbidden, bad_gateway, tunnel, with_port, normalize_allow,
  allow_from_endpoints, eq_ignore_ascii_case, serve_key, serve_request, answer, handle_client,
}

-- The key that the proxy tried to connect to.
abbrev pub attempted : Outcome → Option Text
attempted closed = none
attempted method_not_allowed = none
attempted (forbidden key) = none
attempted (bad_gateway key) = some key
attempted (tunnel key reads) = some key

module _ (allow : List Text) (connects : Text → Bool) where
  pub answer_of_drained :
      (line : Text) (r r' : BufReader)
      → line ≢ []
      → drain_headers r ≡ some r'
      → answer allow connects line r
        ≡ some (serve_request allow connects (split_whitespace line) r')
  unfolding answer
  answer_of_drained [] r r' h e = absurd (h refl)
  answer_of_drained (c ∷ line) r r' h e = rw (e, answer)

  answer_cases :
      (line : Text) (r : BufReader)
      → (answer allow connects line r ≡ some closed)
        ⊎ ((r' : BufReader) × (answer allow connects line r
              ≡ some (serve_request allow connects (split_whitespace line) r')))
  answer_cases [] r = inl (unfold answer in refl)
  answer_cases (c ∷ line) r =
      let (r', e) = drain_headers_total r in inr (r', answer_of_drained (c ∷ line) r r' (λ p. cc) e)

  -- A connection whose reads end comes to an outcome: the fuel is enough for the headers.
  handle_client_total :
      (chunks : List Text) → (o : Outcome) × (handle_client allow connects chunks ≡ some o)
  unfolding handle_client
  handle_client_total chunks =
      let (line, r) = read_line (record { buffer = []; chunks = chunks }) in
      elim (answer_cases line r) [
        | inl e ↦ (closed, e)
        | inr (r', e) ↦ (serve_request allow connects (split_whitespace line) r', e)
      ]

  serve_key-attempted :
      (key k : Text) (r : BufReader)
      → attempted (serve_key allow connects key r) ≡ some k
      → contains allow k ≡ true
  unfolding serve_key
  serve_key-attempted key k r e = elim (Bool-cases (contains allow key)) [
    | inr p ↦ absurd (ground arith)
    | inl p ↦ let same : key ≡ k = ground arith in subst (λ x. contains allow x ≡ true) same p
  ]

  serve_request_other :
      (m t : Text) (rest : List Text) (r : BufReader)
      → eq_ignore_ascii_case m (codes "CONNECT") ≡ false
      → serve_request allow connects (m ∷ t ∷ rest) r ≡ method_not_allowed
  unfolding serve_request
  serve_request_other m t rest r e = rw e

  pub serve_request_connect :
      (m t : Text) (rest : List Text) (r : BufReader)
      → eq_ignore_ascii_case m (codes "CONNECT") ≡ true
      → serve_request allow connects (m ∷ t ∷ rest) r
        ≡ serve_key allow connects (with_port (to_ascii_lowercase t)) r
  unfolding serve_request
  serve_request_connect m t rest r e = rw e

  serve_request-attempted :
      (words : List Text) (k : Text) (r : BufReader)
      → attempted (serve_request allow connects words r) ≡ some k
      → contains allow k ≡ true
  unfolding serve_request
  serve_request-attempted [] k r e = cc
  serve_request-attempted (m ∷ []) k r e = cc
  serve_request-attempted (m ∷ t ∷ rest) k r e =
      elim (Bool-cases (eq_ignore_ascii_case m (codes "CONNECT"))) [
        | inr p ↦ absurd (cc (e, ap attempted (serve_request_other m t rest r p)))
        | inl p ↦
            serve_key-attempted (with_port (to_ascii_lowercase t)) k r
              (ap attempted (sym (serve_request_connect m t rest r p)) ∙ e)
      ]

  handle_client-attempted :
      (chunks : List Text) {o : Outcome} {k : Text}
      → handle_client allow connects chunks ≡ some o
      → attempted o ≡ some k
      → contains allow k ≡ true
  unfolding handle_client
  handle_client-attempted chunks {o} {k} e a =
      let (line, r) = read_line (record { buffer = []; chunks = chunks }) in
      elim (answer_cases line r) [
        | inl p ↦ cc (p, e, a)
        | inr (r', p) ↦
            let same : serve_request allow connects (split_whitespace line) r' ≡ o = cc (p, e) in
            serve_request-attempted (split_whitespace line) k r' (ap attempted same ∙ a)
      ]

-- The proxy of a policy connects to endpoints of the policy only, whatever the client sends and in
-- whatever pieces: a key that it tries is the lowercased host, a colon and the port of an endpoint.
-- The endpoints' hosts hold no white space. In particular no endpoint means no connection.
pub connects_to_endpoints :
    (es : List (Text × ℕ)) (connects : Text → Bool) (chunks : List Text) {o : Outcome} {k : Text}
    → All IsSolidHost es
    → handle_client (normalize_allow (allow_from_endpoints es)) connects chunks ≡ some o
    → attempted o ≡ some k
    → Any (IsKeyOf k) es
connects_to_endpoints es connects chunks {k} solid e a = contains-allow_from_endpoints es k (
    subst (λ l. contains l k ≡ true) (normalize_allow-endpoints es solid)
      (handle_client-attempted _ connects chunks e a))
