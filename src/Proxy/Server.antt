-- ===== src/Proxy/Server.antt =====
-- The accept loop of the proxy and its handle (crates/sandbox-proxy/src/lib.rs), round by round of
-- `select!`. In a round connections arrive, the handle may end, and `select!` checks one of its two
-- branches first.
pub mod Shutdown
use simple_sandbox_public.Prelude.{
  ℕ, zero, suc, Bool, true, false, ◌||◌, ◌&&◌, Option, none, some, List, [], ◌∷◌, ◌++◌, Text,
  if◌then◌else◌,
}
use simple_sandbox_public.Result.{Result, ok, ◌>>=◌}
use simple_sandbox_public.Proxy.{normalize_allow}

-- What an `accept` gives: a connection, by what its reads give, or an error.
pub data Accepted : Type 0 where
  connection : List Text → Accepted
  accept_failed : Accepted

-- Whether the loop runs, whether the shutdown has been sent to it, what `accept` can take, and the
-- connections for which it has started `handle_client`.
pub record Server : Type 0 where
  pub is_listening : Bool
  pub signalled : Bool
  pub backlog : List Accepted
  pub clients : List (List Text)

-- `sender` is whether the sender of the shutdown is still there.
pub record ProxyHandle : Type 0 where
  pub port : ℕ
  pub sender : Bool

-- The handle and the loop.
pub record Running : Type 0 where
  pub handle : ProxyHandle
  pub allow : List Text
  pub server : Server

-- `bound` is the port that the listener is bound to, or the error.
unfoldable pub start_allowlist_proxy : Result Text ℕ → List Text → Result Text Running
start_allowlist_proxy bound allow = do
  port ← bound
  ok (record {
    handle = record { port = port; sender = true };
    allow = normalize_allow allow;
    server = record { is_listening = true; signalled = false; backlog = []; clients = [] };
  })

-- The sender is taken, and sends if it was there.
unfoldable pub take_sender : ProxyHandle → Bool × ProxyHandle
take_sender h = (h.sender, record h { sender = false })

-- The end of a handle, and whether it sends: `drop`, or `shutdown`, which consumes the handle, so
-- that `drop` follows.
unfoldable pub end_handle : Bool → ProxyHandle → Bool × ProxyHandle
end_handle false h = take_sender h
end_handle true h =
    let (sent, rest) = take_sender h in
    let (again, gone) = take_sender rest in (sent || again, gone)

-- The branch of `accept`.
unfoldable pub take_accepted : List Accepted → Server → Server
take_accepted [] s = s
take_accepted (connection c ∷ rest) s = record s { backlog = rest; clients = s.clients ++ c ∷ [] }
take_accepted (accept_failed ∷ rest) s = record s { backlog = rest; is_listening = false }

abbrev pub is_idle : List Accepted → Bool
is_idle [] = true
is_idle (a ∷ rest) = false

-- `select!`, with the branch of the shutdown first or second. A branch that is not ready is passed
-- over; if neither is, the loop waits.
unfoldable pub select : Bool → Server → Server
select shutdown_first s =
    if s.signalled && (shutdown_first || is_idle s.backlog)
    then record s { is_listening = false }
    else take_accepted s.backlog s

-- A round: how the handle ends in it, if it does (true is `shutdown`), what arrives, and which
-- branch is first.
pub record Round : Type 0 where
  pub ends : Option Bool
  pub arrives : List Accepted
  pub shutdown_first : Bool

unfoldable pub hear : Option Bool → Running → Running
hear none p = p
hear (some called) p =
    let (sent, h) = end_handle called p.handle in
    record p { handle = h; server = record p.server { signalled = p.server.signalled || sent } }

-- The body of the loop, while it runs.
unfoldable pub accept_round : Round → Running → Running
accept_round r p =
    let heard = hear r.ends p in
    let s : Server = record heard.server { backlog = heard.server.backlog ++ r.arrives } in
    record heard { server = if s.is_listening then select r.shutdown_first s else s }

-- The first rounds.
unfoldable pub serve : (ℕ → Round) → ℕ → Running → Running
serve env zero p = p
serve env (suc n) p = accept_round (env n) (serve env n p)
