-- ===== src/Proxy/Stall.antt =====
-- A client that sends what it sends and then neither goes on nor closes the connection
-- (crates/sandbox-proxy/src/lib.rs): `handle_client` has no time limit, and waits for a line.
pub mod Lines
pub mod Waits
use simple_sandbox_public.Prelude.{
  ℕ, zero, suc, Bool, Option, none, some, List, [], ◌∷◌, ◌++◌, Text, if◌then◌else◌,
}
use simple_sandbox_public.Text.{split_whitespace}
use simple_sandbox_public.Proxy.{Outcome, serve_request}
use simple_sandbox_public.Proxy.Reader.{BufReader, split_line, ends_headers, remaining}

-- `read_line` on such a connection; none where it waits.
unfoldable pub next_from : Text → List Text → Option (Text × BufReader)
next_from buffer [] = elim (split_line buffer) [
  | none ↦ none
  | some (line, rest) ↦ some (line, record { buffer = rest; chunks = [] })
]
next_from buffer (c ∷ cs) =
    let more = next_from c cs in
    elim (split_line buffer) [
      | some (line, rest) ↦ some (line, record { buffer = rest; chunks = c ∷ cs })
      | none ↦ elim more [ none ↦ none | some (line, r) ↦ some (buffer ++ line, r) ]
    ]

unfoldable pub next_line : BufReader → Option (Text × BufReader)
unfolding next_from
next_line r = next_from r.buffer r.chunks

-- The loop over the headers; none where it waits, or runs out of fuel.
unfoldable pub drain_open : ℕ → BufReader → Option BufReader
drain_open zero r = none
drain_open (suc fuel) r = elim (next_line r) [
  | none ↦ none
  | some (line, r') ↦ let rest = drain_open fuel r' in if ends_headers line then some r' else rest
]

module _ (allow : List Text) (connects : Text → Bool) where
  -- From the request line on.
  unfoldable pub answer_open : Text → BufReader → Option Outcome
  answer_open line r = elim (drain_open (suc (remaining r)) r) [
    | none ↦ none
    | some r' ↦ some (serve_request allow connects (split_whitespace line) r')
  ]

  -- `handle_client`, on a connection that stays open behind the chunks; none while it waits.
  unfoldable pub handle_open : List Text → Option Outcome
  handle_open chunks = elim (next_line (record { buffer = []; chunks = chunks })) [
    | none ↦ none
    | some (line, r) ↦ answer_open line r
  ]
