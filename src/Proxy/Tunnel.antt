-- ===== src/Proxy/Tunnel.antt =====
-- A request for an endpoint of the policy, and what is left of what the client sent behind it
-- (crates/sandbox-proxy/src/lib.rs).
use simple_sandbox_public.Prelude.{
  ℕ, ◌≡◌, refl, ap, ◌∙◌, ◌≢◌, Bool, true, false, some, List, [], ◌∷◌, ◌++◌, Text, text_eq, contains,
  arith, All, Any, All-append, append_assoc,
}
use simple_sandbox_public.Text.{codes, split_whitespace, split_words, flush, is_whitespace}
use simple_sandbox_public.Text.Laws.{IsSolid, Lacks, split_words-append, digits-IsSolid}
use simple_sandbox_public.Text.Decimal.{decimal}
use simple_sandbox_public.Text.Decimal.Laws.{decimal-All-IsDigit}
use simple_sandbox_public.Proxy.Reader.{BufReader, into_inner}
use simple_sandbox_public.Proxy.Reader.Laws.{
  read_line_buffered, read_line_filled, headers, IsHeader, drain_headers-headers,
}
use simple_sandbox_public.Proxy.AllowSet.{
  IsSolidHost, Names, is_allowed_complete, normalize_allow-endpoints, with_port-endpoint_key,
  to_ascii_lowercase_target,
}
use simple_sandbox_public.Proxy.Client.{answer_of_drained, serve_request_connect}
use simple_sandbox_public.Proxy.{
  tunnel, normalize_allow, endpoint_key, allow_from_endpoints, is_allowed, with_port,
  eq_ignore_ascii_case, serve_key, serve_request, answer, handle_client,
}

line_feed-ne : (c : ℕ) → is_whitespace c ≡ false → c ≢ 10
unfolding is_whitespace
line_feed-ne c h e = ground arith

flush_word : (w : Text) (words : List Text) → w ≢ [] → flush w words ≡ w ∷ words
flush_word [] words h = absurd (h refl)
flush_word (c ∷ w) words h = refl

solid-Lacks : (s : Text) → IsSolid s → Lacks 10 s
solid-Lacks [] h = tt
solid-Lacks (c ∷ s) (h, hs) = (line_feed-ne c h, solid-Lacks s hs)

split_two :
    (m t v : Text)
    → IsSolid m
    → m ≢ []
    → IsSolid t
    → t ≢ []
    → split_whitespace (m ++ 32 ∷ (t ++ 32 ∷ v)) ≡ m ∷ t ∷ split_words v []
unfolding split_whitespace
split_two m t v hm nm ht nt =
    split_words-append m 32 _ [] hm (unfold is_whitespace in refl)
    ∙ flush_word m _ nm
    ∙ ap (λ l. m ∷ l)
        (split_words-append t 32 v [] ht (unfold is_whitespace in refl) ∙ flush_word t _ nt)

-- A request line without its line feed: a method, a target and a version.
abbrev pub request_line : Text → Text → Text → Text
request_line m t v = m ++ 32 ∷ (t ++ 32 ∷ v)

request_line-append : (m t v s : Text) → request_line m t v ++ s ≡ request_line m t (v ++ s)
request_line-append m t v s =
    append_assoc m (32 ∷ (t ++ 32 ∷ v)) s ∙ ap (λ l. m ++ 32 ∷ l) (append_assoc t (32 ∷ v) s)

request_line-Lacks :
    (m t v : Text) → IsSolid m → IsSolid t → Lacks 10 v → Lacks 10 (request_line m t v)
request_line-Lacks m t v hm ht hv =
    All-append _ m _ (solid-Lacks m hm)
      ((omega arith), All-append _ t _ (solid-Lacks t ht) ((omega arith), hv))

serve_key_tunnel :
    (allow : List Text) (connects : Text → Bool) (key : Text) (r : BufReader)
    → contains allow key ≡ true
    → connects key ≡ true
    → serve_key allow connects key r ≡ tunnel key (into_inner r)
unfolding serve_key
serve_key_tunnel allow connects key r a c = rw (a, c)

-- The target of a request for a host and a port.
abbrev pub target : Text → ℕ → Text
target host port = host ++ b':' ∷ decimal port

target-IsSolid : (host : Text) (port : ℕ) → IsSolid host → IsSolid (target host port)
target-IsSolid host port h =
    All-append _ host _ h
      ((unfold is_whitespace in refl), digits-IsSolid _ (decimal-All-IsDigit port))

target-ne : (host : Text) (port : ℕ) → target host port ≢ []
target-ne [] port e = cc
target-ne (c ∷ host) port e = cc

line_feed_ne : (line : Text) → line ++ 10 ∷ [] ≢ []
line_feed_ne [] e = cc
line_feed_ne (c ∷ line) e = cc

answer_of_headers :
    (allow : List Text) (connects : Text → Bool) (line early : Text) (hs cs : List Text)
    → Lacks 10 line
    → All IsHeader hs
    → handle_client allow connects ((line ++ 10 ∷ headers hs early) ∷ cs)
      ≡ some (
          serve_request allow connects
            (split_whitespace (line ++ 10 ∷ []))
            (record { buffer = early; chunks = cs }))
unfolding handle_client
answer_of_headers allow connects line early hs cs h hh =
    ap (λ x. answer allow connects x.0 x.1)
      (read_line_filled (line ++ 10 ∷ headers hs early) cs
        ∙ read_line_buffered line (headers hs early) cs h)
    ∙ answer_of_drained allow connects (line ++ 10 ∷ []) _ _ (line_feed_ne line)
        (drain_headers-headers hs early cs hh)

serve_request_endpoint :
    (allow : List Text) (connects : Text → Bool) (m host v : Text) (port : ℕ) (r : BufReader)
    → IsSolid m
    → m ≢ []
    → IsSolid host
    → eq_ignore_ascii_case m (codes "CONNECT") ≡ true
    → serve_request allow connects (split_whitespace (request_line m (target host port) v)) r
      ≡ serve_key allow connects (endpoint_key host port) r
serve_request_endpoint allow connects m host v port r hm nm hh e =
    ap (λ words. serve_request allow connects words r)
      (split_two m (target host port) v hm nm (target-IsSolid host port hh) (target-ne host port))
    ∙ serve_request_connect allow connects m (target host port) _ r e
    ∙ ap (λ key. serve_key allow connects (with_port key) r) (to_ascii_lowercase_target host port)
    ∙ ap (λ key. serve_key allow connects key r) (with_port-endpoint_key host port)

-- A client that asks with CONNECT, in letters of any case, for the host and the port of an endpoint
-- of the policy, the host's letters in any case, gets a tunnel to it if the proxy can connect to
-- it, whatever version and headers it sends. The request and its headers come in the first read; the
-- tunnel carries what later reads give, but not what the first read held behind the headers. No
-- white space is in the endpoints' hosts, the host or the method, which is not empty; no line feed
-- is in the version, and the headers are lines that are not blank.
pub tunnel_to_endpoint :
    (es : List (Text × ℕ)) (connects : Text → Bool) (m host v early : Text) (port : ℕ)
    (hs cs : List Text)
    → All IsSolidHost es
    → Any (Names host port) es
    → connects (endpoint_key host port) ≡ true
    → eq_ignore_ascii_case m (codes "CONNECT") ≡ true
    → IsSolid m
    → m ≢ []
    → IsSolid host
    → Lacks 10 v
    → All IsHeader hs
    → handle_client
        (normalize_allow (allow_from_endpoints es))
        connects
        ((request_line m (target host port) v ++ 10 ∷ headers hs early) ∷ cs)
      ≡ some (tunnel (endpoint_key host port) cs)
tunnel_to_endpoint es connects m host v early port hs cs solid named c e hm nm hh hv hhs =
    let line = request_line m (target host port) v in
    let r : BufReader = record { buffer = early; chunks = cs } in
    ap (λ allow. handle_client allow connects ((line ++ 10 ∷ headers hs early) ∷ cs))
      (normalize_allow-endpoints es solid)
    ∙ answer_of_headers _ connects line early hs cs
        (request_line-Lacks m (target host port) v hm (target-IsSolid host port hh) hv) hhs
    ∙ ap some (
        ap (λ l. serve_request (allow_from_endpoints es) connects (split_whitespace l) r)
          (request_line-append m (target host port) v (10 ∷ []))
        ∙ serve_request_endpoint _ connects m host (v ++ 10 ∷ []) port r hm nm hh e
        ∙ serve_key_tunnel (allow_from_endpoints es) connects (endpoint_key host port) r
            (unfold is_allowed in is_allowed_complete es host port named) c
        ∙ (unfold into_inner in refl))
