-- ===== src/Proxy/AllowSet.antt =====
-- The allow set: which hosts and ports it lets through (crates/sandbox-proxy/src/lib.rs).
use simple_sandbox_public.Prelude.{
  ℕ, ◌≤◌, ◌≡◌, refl, sym, ap, ◌∙◌, ◌↔◌, inl, inr, true, List, [], ◌∷◌, ◌++◌, Text, text_eq, ◌==◌,
  contains, arith, All, Any, Bool-cases, All-append,
}
use simple_sandbox_public.Text.{to_ascii_lowercase, is_whitespace}
use simple_sandbox_public.Text.Laws.{
  IsSolid, trim_of_IsSolid, contains_char-append, to_ascii_lowercase-IsSolid,
  to_ascii_lowercase_of_digits, to_ascii_lowercase_idem, to_ascii_lowercase-append, digits-IsSolid,
  digits-Lacks, last_separator,
}
use simple_sandbox_public.Text.Decimal.{decimal, max_u64, max_u16}
use simple_sandbox_public.Text.Decimal.Laws.{decimal-All-IsDigit, decimal-injective}
use simple_sandbox_public.Proxy.{
  with_port, normalize_entry, normalize_allow, endpoint_key, allow_from_endpoints, is_allowed,
}

-- The port is 16 bits wide.
abbrev pub IsPort : Text × ℕ → Type 0
IsPort e = e.1 ≤ max_u16

abbrev pub IsSolidHost : Text × ℕ → Type 0
IsSolidHost e = IsSolid e.0

-- The key of an endpoint determines the host, up to the case of its letters, and the port.
pub endpoint_key-injective :
    (host host' : Text) (port port' : ℕ)
    → port ≤ max_u64
    → port' ≤ max_u64
    → endpoint_key host port ≡ endpoint_key host' port'
    → (to_ascii_lowercase host ≡ to_ascii_lowercase host') × (port ≡ port')
unfolding endpoint_key
endpoint_key-injective host host' port port' h h' e =
    let (same, ports) =
      last_separator b':' _ _ (decimal port) (decimal port')
        (digits-Lacks _ (decimal-All-IsDigit port)) (digits-Lacks _ (decimal-All-IsDigit port'))
        e in
    (same, decimal-injective port port' h h' ports)

endpoint_key_cong :
    (host host' : Text) (port port' : ℕ)
    → to_ascii_lowercase host ≡ to_ascii_lowercase host'
    → port ≡ port'
    → endpoint_key host port ≡ endpoint_key host' port'
unfolding endpoint_key
endpoint_key_cong host host' port port' e p = cc

abbrev pub Names : Text → ℕ → Text × ℕ → Type 0
Names host port e = (to_ascii_lowercase e.0 ≡ to_ascii_lowercase host) × (e.1 ≡ port)

is_allowed_sound :
    (es : List (Text × ℕ)) (host : Text) (port : ℕ)
    → All IsPort es
    → port ≤ max_u16
    → is_allowed (allow_from_endpoints es) host port ≡ true
    → Any (Names host port) es
unfolding is_allowed allow_from_endpoints
is_allowed_sound [] host port hs h e = cc
is_allowed_sound ((host', port') ∷ es) host port (h', hs) h e =
    elim (Bool-cases (endpoint_key host port == endpoint_key host' port')) [
      | inl p ↦
          let (hosts, ports) =
            endpoint_key-injective host host' port port' (omega arith) (omega arith)
              (ground arith) in
          inl (sym hosts, sym ports)
      | inr p ↦ inr (is_allowed_sound es host port hs h (ground arith))
    ]

-- An endpoint's host and port are in the set of the endpoints.
pub is_allowed_complete :
    (es : List (Text × ℕ)) (host : Text) (port : ℕ)
    → Any (Names host port) es
    → is_allowed (allow_from_endpoints es) host port ≡ true
unfolding is_allowed allow_from_endpoints
is_allowed_complete [] host port h = absurd h
is_allowed_complete ((host', port') ∷ es) host port (inl (e, p)) =
    ground (arith, endpoint_key_cong host' host port' port e p)
is_allowed_complete ((host', port') ∷ es) host port (inr h) =
    ground (arith, is_allowed_complete es host port h)

-- The set that is built from endpoints allows a host and a port exactly if an endpoint has that
-- port and that host, up to the case of ASCII letters. Ports are 16 bits wide.
pub is_allowed_iff :
    (es : List (Text × ℕ)) (host : Text) (port : ℕ)
    → All IsPort es
    → port ≤ max_u16
    → (is_allowed (allow_from_endpoints es) host port ≡ true) ↔ Any (Names host port) es
is_allowed_iff es host port hs h =
    (is_allowed_sound es host port hs h, is_allowed_complete es host port)

endpoint_key-IsSolid : (host : Text) (port : ℕ) → IsSolid host → IsSolid (endpoint_key host port)
unfolding endpoint_key
endpoint_key-IsSolid host port h =
    All-append _ (to_ascii_lowercase host) _ (to_ascii_lowercase-IsSolid host h)
      ((unfold is_whitespace in refl), digits-IsSolid _ (decimal-All-IsDigit port))

to_ascii_lowercase_colon : (s : Text) → to_ascii_lowercase (b':' ∷ s) ≡ b':' ∷ to_ascii_lowercase s
unfolding to_ascii_lowercase
to_ascii_lowercase_colon s = refl

-- Lowering the case of a target with a port lowers that of its host.
pub to_ascii_lowercase_target :
    (host : Text) (port : ℕ)
    → to_ascii_lowercase (host ++ b':' ∷ decimal port) ≡ endpoint_key host port
unfolding endpoint_key
to_ascii_lowercase_target host port =
    to_ascii_lowercase-append host (b':' ∷ decimal port)
    ∙ ap (λ t. to_ascii_lowercase host ++ t)
        (to_ascii_lowercase_colon (decimal port)
          ∙ ap (λ t. b':' ∷ t) (to_ascii_lowercase_of_digits _ (decimal-All-IsDigit port)))

to_ascii_lowercase-endpoint_key :
    (host : Text) (port : ℕ) → to_ascii_lowercase (endpoint_key host port) ≡ endpoint_key host port
to_ascii_lowercase-endpoint_key host port =
    ap to_ascii_lowercase (sym (to_ascii_lowercase_target host port))
    ∙ to_ascii_lowercase_idem _
    ∙ to_ascii_lowercase_target host port

pub with_port-endpoint_key :
    (host : Text) (port : ℕ) → with_port (endpoint_key host port) ≡ endpoint_key host port
unfolding with_port endpoint_key
with_port-endpoint_key host port = rw contains_char-append

-- The key of an endpoint without white space in its host is its own normal form.
pub normalize_entry-endpoint_key :
    (host : Text) (port : ℕ)
    → IsSolid host
    → normalize_entry (endpoint_key host port) ≡ endpoint_key host port
unfolding normalize_entry
normalize_entry-endpoint_key host port h =
    rw
      (
        trim_of_IsSolid (endpoint_key host port) (endpoint_key-IsSolid host port h),
        to_ascii_lowercase-endpoint_key host port,
      )
      (with_port-endpoint_key host port)

-- Normalising the set of endpoints without white space in their hosts changes nothing.
pub normalize_allow-endpoints :
    (es : List (Text × ℕ))
    → All IsSolidHost es
    → normalize_allow (allow_from_endpoints es) ≡ allow_from_endpoints es
unfolding normalize_allow allow_from_endpoints
normalize_allow-endpoints [] h = refl
normalize_allow-endpoints ((host, port) ∷ es) (h, hs) =
    cc (normalize_entry-endpoint_key host port h, normalize_allow-endpoints es hs)

abbrev pub IsKeyOf : Text → Text × ℕ → Type 0
IsKeyOf key e = key ≡ endpoint_key e.0 e.1

pub contains-allow_from_endpoints :
    (es : List (Text × ℕ)) (key : Text)
    → contains (allow_from_endpoints es) key ≡ true
    → Any (IsKeyOf key) es
unfolding allow_from_endpoints
contains-allow_from_endpoints [] key e = cc
contains-allow_from_endpoints ((host, port) ∷ es) key e =
    elim (Bool-cases (key == endpoint_key host port)) [
      | inl p ↦ inl (ground arith)
      | inr p ↦ inr (contains-allow_from_endpoints es key (ground arith))
    ]
