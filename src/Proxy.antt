-- ===== src/Proxy.antt =====
-- The CONNECT allowlist proxy (crates/sandbox-proxy/src/lib.rs): the allow set, and what one client
-- connection gets. A set is the list of its members.
pub mod Reader
pub mod AllowSet
pub mod Client
pub mod Tunnel
pub mod Server
pub mod Relay
pub mod Stall
mod Tests
use simple_sandbox_public.Prelude.{
  ℕ, Bool, true, false, ◌||◌, not, Option, none, some, List, [], ◌∷◌, ◌++◌, map, Text, text_eq,
  ◌==◌, contains, if◌then◌else◌, ltb,
}
use simple_sandbox_public.Text.{codes, trim, to_ascii_lowercase, contains_char, split_whitespace}
use simple_sandbox_public.Text.Decimal.{decimal}
use Reader.{BufReader, read_line, drain_headers, into_inner}

-- The text with `:443` behind it, if it has no colon.
unfoldable pub with_port : Text → Text
with_port s = if contains_char b':' s then s else s ++ codes ":443"

-- What `normalize_allow` does to an entry.
unfoldable pub normalize_entry : Text → Text
unfolding with_port
normalize_entry s = with_port (to_ascii_lowercase (trim s))

unfoldable pub normalize_allow : List Text → List Text
unfolding normalize_entry
normalize_allow allow = map normalize_entry allow

-- `format!("{}:{port}", host.to_ascii_lowercase())`
unfoldable pub endpoint_key : Text → ℕ → Text
endpoint_key host port = to_ascii_lowercase host ++ b':' ∷ decimal port

unfoldable pub allow_from_endpoints : List (Text × ℕ) → List Text
allow_from_endpoints [] = []
allow_from_endpoints ((host, port) ∷ rest) = endpoint_key host port ∷ allow_from_endpoints rest

unfoldable pub is_allowed : List Text → Text → ℕ → Bool
is_allowed allow host port = contains allow (endpoint_key host port)

-- What a client connection comes to: closed without an answer, answered 405, 403 or 502, or joined
-- to the upstream connection, to which the given reads of the client are relayed.
pub data Outcome : Type 0 where
  closed : Outcome
  method_not_allowed : Outcome
  forbidden : Text → Outcome
  bad_gateway : Text → Outcome
  tunnel : Text → List Text → Outcome

-- `str::eq_ignore_ascii_case`
abbrev pub eq_ignore_ascii_case : Text → Text → Bool
eq_ignore_ascii_case a b = to_ascii_lowercase a == to_ascii_lowercase b

module _ (allow : List Text) (connects : Text → Bool) where
  -- From the key of the target on.
  unfoldable pub serve_key : Text → BufReader → Outcome
  serve_key key r =
      if not (contains allow key)
      then forbidden key
      else if connects key
      then tunnel key (into_inner r)
      else bad_gateway key

  -- From the words of the request line on.
  unfoldable pub serve_request : List Text → BufReader → Outcome
  serve_request [] r = method_not_allowed
  serve_request (method ∷ []) r = method_not_allowed
  serve_request (method ∷ target ∷ rest) r =
      if not (eq_ignore_ascii_case method (codes "CONNECT"))
      then method_not_allowed
      else serve_key (with_port (to_ascii_lowercase target)) r

  -- The header lines are drained before the request is looked at.
  unfoldable pub answer : Text → BufReader → Option Outcome
  answer [] r = some closed
  answer (c ∷ line) r = elim (drain_headers r) [
    | none ↦ none
    | some r' ↦ some (serve_request (split_whitespace (c ∷ line)) r')
  ]

  -- `handle_client`, on a connection whose reads give the chunks, one after another.
  unfoldable pub handle_client : List Text → Option Outcome
  handle_client chunks =
      let (line, r) = read_line (record { buffer = []; chunks = chunks }) in answer line r
