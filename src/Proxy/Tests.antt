-- ===== src/Proxy/Tests.antt =====
-- Tests of the proxy, and its theorems at concrete inputs (crates/sandbox-proxy/src/lib.rs).
use simple_sandbox_public.Proxy.Stall.{next_line}
use simple_sandbox_public.Proxy.Reader.{split_line}
use simple_sandbox_public.Proxy.Stall.{answer_open}
use simple_sandbox_public.Proxy.Stall.{drain_open}
use simple_sandbox_public.Proxy.{serve_request}
use simple_sandbox_public.Text.{split_whitespace}
use simple_sandbox_public.Proxy.{serve_key}
use simple_sandbox_public.Proxy.{with_port}
use simple_sandbox_public.Text.{contains_char}
use simple_sandbox_public.Text.Decimal.{decimal}
use simple_sandbox_public.Proxy.Reader.{into_inner}
use simple_sandbox_public.Prelude.{
  ℕ, ◌≡◌, refl, ◌↔◌, inl, Bool, true, some, List, [], ◌∷◌, ◌++◌, Text, text_eq, arith, All, Any,
}
use simple_sandbox_public.Text.{codes, to_ascii_lowercase, is_whitespace}
use simple_sandbox_public.Text.Laws.{IsSolid, Lacks}
use simple_sandbox_public.Proxy.Reader.{ends_headers}
use simple_sandbox_public.Proxy.Reader.Laws.{headers, IsHeader}
use simple_sandbox_public.Proxy.AllowSet.{
  IsSolidHost, IsKeyOf, Names, is_allowed_iff, normalize_allow-endpoints,
}
use simple_sandbox_public.Proxy.Client.{connects_to_endpoints}
use simple_sandbox_public.Proxy.Stall.{handle_open}
use simple_sandbox_public.Proxy.Stall.Lines.{joined}
use simple_sandbox_public.Proxy.Stall.Waits.{IsRequest, handle_open_iff}
use simple_sandbox_public.Proxy.Tunnel.{request_line, target, tunnel_to_endpoint}
use simple_sandbox_public.Proxy.{
  Outcome, tunnel, normalize_allow, endpoint_key, allow_from_endpoints, is_allowed,
  eq_ignore_ascii_case, handle_client,
}
use simple_sandbox_public.Prelude.{false, none, ◌≤◌, ◌+◌, ◌%◌, ◌==ℕ◌, if◌then◌else◌}
use simple_sandbox_public.Result.{ok, err}
use simple_sandbox_public.Proxy.Server.{
  connection, Running, Round, start_allowlist_proxy, take_sender, end_handle, take_accepted, select,
  hear, accept_round, serve,
}
use simple_sandbox_public.Proxy.Server.Shutdown.{serve-end_handle}
use simple_sandbox_public.Proxy.Relay.{Read, copy, relay, sent, IsPrefix, Accepts, relay_delivers}

abbrev endpoints : List (Text × ℕ)
endpoints = (codes "Example.com", 443) ∷ []

abbrev up : Text → Bool
up key = true

-- A request with one header, and text that comes with it.
abbrev request : Text
request =
    request_line (codes "connect") (target (codes "example.COM") 443) (codes "HTTP/1.1")
    ++ 10 ∷ headers (codes "Host: x" ∷ []) (codes "early")

endpoints-IsSolidHost : All IsSolidHost endpoints
unfolding is_whitespace
endpoints-IsSolidHost = ground arith

is_allowed_iff_example :
    (is_allowed (allow_from_endpoints endpoints) (codes "example.com") 443 ≡ true)
    ↔ Any (Names (codes "example.com") 443) endpoints
is_allowed_iff_example =
    is_allowed_iff endpoints (codes "example.com") 443 (omega arith, tt) (omega arith)

normalize_allow-endpoints_example :
    normalize_allow (allow_from_endpoints endpoints) ≡ allow_from_endpoints endpoints
normalize_allow-endpoints_example = normalize_allow-endpoints endpoints endpoints-IsSolidHost

is_named : Any (Names (codes "example.COM") 443) endpoints
unfolding to_ascii_lowercase
is_named = inl (refl, refl)

host_line-IsHeader : All IsHeader (codes "Host: x" ∷ [])
unfolding ends_headers text_eq
host_line-IsHeader = ground arith

is_connect : eq_ignore_ascii_case (codes "connect") (codes "CONNECT") ≡ true
unfolding to_ascii_lowercase text_eq
is_connect = refl

method-IsSolid : IsSolid (codes "connect")
unfolding is_whitespace
method-IsSolid = ground arith

host-IsSolid : IsSolid (codes "example.COM")
unfolding is_whitespace
host-IsSolid = ground arith

version-Lacks : Lacks 10 (codes "HTTP/1.1")
version-Lacks = ground arith

tunnel_to_endpoint_example :
    handle_client
      (normalize_allow (allow_from_endpoints endpoints))
      up
      (request ∷ codes "late" ∷ [])
    ≡ some (tunnel (endpoint_key (codes "example.COM") 443) (codes "late" ∷ []))
tunnel_to_endpoint_example =
    tunnel_to_endpoint endpoints up (codes "connect") (codes "example.COM") (codes "HTTP/1.1")
      (codes "early") 443 (codes "Host: x" ∷ []) (codes "late" ∷ []) endpoints-IsSolidHost is_named
      refl is_connect method-IsSolid (λ e. cc) host-IsSolid version-Lacks host_line-IsHeader

answered :
    handle_client (normalize_allow (allow_from_endpoints endpoints)) up (request ∷ [])
    ≡ some (tunnel (endpoint_key (codes "example.COM") 443) [])
answered =
    tunnel_to_endpoint endpoints up (codes "connect") (codes "example.COM") (codes "HTTP/1.1")
      (codes "early") 443 (codes "Host: x" ∷ []) [] endpoints-IsSolidHost is_named refl is_connect
      method-IsSolid (λ e. cc) host-IsSolid version-Lacks host_line-IsHeader

connects_to_endpoints_example : Any (IsKeyOf (endpoint_key (codes "example.COM") 443)) endpoints
connects_to_endpoints_example =
    connects_to_endpoints endpoints up (request ∷ []) endpoints-IsSolidHost answered refl

-- A proxy on a port. A connection arrives in each round, `shutdown` is called in the round after
-- the first, and `select!` checks its branch first in every other round.
abbrev running : Running
running = record {
  handle = record { port = 4000; sender = true };
  allow = normalize_allow (allow_from_endpoints endpoints);
  server = record { is_listening = true; signalled = false; backlog = []; clients = [] };
}

abbrev busy : ℕ → Round
busy n = record {
  ends = if n ==ℕ 1 then some true else none;
  arrives = connection (request ∷ []) ∷ [];
  shutdown_first = n % 2 ==ℕ 0;
}

busy-is_fair : (n : ℕ) → (k : ℕ) × (n ≤ k) × ((busy k).shutdown_first ≡ true)
busy-is_fair n = (n + n % 2, omega arith, ground arith)

started : start_allowlist_proxy (ok 4000) (allow_from_endpoints endpoints) ≡ ok running
unfolding start_allowlist_proxy
started = refl

-- The connection of the round in which the handle ends is still accepted.
busy_test :
    ((serve busy 2 running).server.is_listening ≡ true)
    × ((serve busy 3 running).server.is_listening ≡ false)
    × ((serve busy 3 running).server.clients ≡ (request ∷ []) ∷ (request ∷ []) ∷ [])
unfolding serve accept_round hear end_handle take_sender select take_accepted
busy_test = (refl, refl, refl)

serve-end_handle_example :
    (k : ℕ) × (1 ≤ k)
    × ((n : ℕ)
        → k ≤ n
        → ((serve busy n running).server.is_listening ≡ false)
          × ((serve busy n running).server.clients ≡ (serve busy k running).server.clients))
serve-end_handle_example =
    serve-end_handle (ok 4000) (allow_from_endpoints endpoints) busy 1 true started refl
      busy-is_fair

-- The client's second write fails at the upstream; the upstream ends after one answer.
abbrev from_client : List Read
from_client = ok (codes "a") ∷ ok (codes "b") ∷ err (codes "reset") ∷ []

abbrev from_upstream : List Read
from_upstream = ok (codes "x") ∷ ok [] ∷ []

relay_test :
    relay (from_client, true ∷ false ∷ []) (from_upstream, true ∷ true ∷ [])
    ≡ (codes "a" ∷ [], codes "x" ∷ [])
unfolding relay copy
relay_test = refl

relay_delivers_example :
    IsPrefix
      (relay (from_client, true ∷ false ∷ []) (from_upstream, true ∷ true ∷ [])).0
      (sent from_client)
    × IsPrefix
        (relay (from_client, true ∷ false ∷ []) (from_upstream, true ∷ true ∷ [])).1
        (sent from_upstream)
    × (Accepts from_client (true ∷ false ∷ [])
        → (relay (from_client, true ∷ false ∷ []) (from_upstream, true ∷ true ∷ [])).0
          ≡ sent from_client)
    × (Accepts from_upstream (true ∷ true ∷ [])
        → (relay (from_client, true ∷ false ∷ []) (from_upstream, true ∷ true ∷ [])).1
          ≡ sent from_upstream)
relay_delivers_example =
    relay_delivers from_client from_upstream (true ∷ false ∷ []) (true ∷ true ∷ [])

handle_open_iff_example :
    ((o : Outcome) × (handle_open (allow_from_endpoints endpoints) up (codes "GET" ∷ []) ≡ some o))
    ↔ IsRequest (joined (codes "GET" ∷ []))
handle_open_iff_example = handle_open_iff (allow_from_endpoints endpoints) up (codes "GET" ∷ [])

-- The same request over two reads, on a connection that stays open.
open_test :
    handle_open
      (allow_from_endpoints endpoints)
      up
      (codes "CONNECT example.com:443\r\nHo" ∷ codes "st: x\r\n\r\n" ∷ [])
    ≡ some (tunnel (codes "example.com:443") [])
unfolding handle_open next_line split_line answer_open drain_open ends_headers text_eq serve_request
    split_whitespace to_ascii_lowercase serve_key allow_from_endpoints with_port contains_char
    endpoint_key decimal into_inner
open_test = refl
