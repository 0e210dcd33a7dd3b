-- ===== src/Proxy/Reader.antt =====
-- `BufReader` and the draining of the headers (crates/sandbox-proxy/src/lib.rs). A connection is
-- the list of what its reads give; at its end the reads give nothing.
pub mod Laws
use simple_sandbox_public.Prelude.{
  ℕ, zero, suc, ◌+◌, Bool, true, false, ◌||◌, Option, none, some, List, [], ◌∷◌, ◌++◌, Text,
  text_eq, ◌==◌, ◌==ℕ◌, if◌then◌else◌, length,
}
use simple_sandbox_public.Text.{codes, is_empty}

pub record BufReader : Type 0 where
  pub buffer : Text
  pub chunks : List Text

-- The text up to its first line feed, with it, and the rest; `none` if there is no line feed.
unfoldable pub split_line : Text → Option (Text × Text)
split_line [] = none
split_line (c ∷ s) =
    let rest = split_line s in
    if c ==ℕ 10
    then some (c ∷ [], s)
    else elim rest [ none ↦ none | some (line, r) ↦ some (c ∷ line, r) ]

-- Reads of the connection until a line feed or the end.
unfoldable pub read_from : Text → List Text → Text × BufReader
unfolding split_line
read_from buffer [] = elim (split_line buffer) [
  | none ↦ (buffer, record { buffer = []; chunks = [] })
  | some (line, rest) ↦ (line, record { buffer = rest; chunks = [] })
]
read_from buffer (c ∷ cs) =
    let more = read_from c cs in
    elim (split_line buffer) [
      | none ↦ (buffer ++ more.0, more.1)
      | some (line, rest) ↦ (line, record { buffer = rest; chunks = c ∷ cs })
    ]

-- `read_line` into an empty text.
unfoldable pub read_line : BufReader → Text × BufReader
unfolding read_from
read_line r = read_from r.buffer r.chunks

-- The end of the headers: a blank line, or the end of the stream.
unfoldable pub ends_headers : Text → Bool
ends_headers line = line == (13 ∷ 10 ∷ []) || line == (10 ∷ []) || is_empty line

-- The loop, with fuel; `none` means that the fuel ran out.
unfoldable pub drain : ℕ → BufReader → Option BufReader
drain zero r = none
drain (suc fuel) r =
    let rest = drain fuel (read_line r).1 in
    if ends_headers (read_line r).0 then some (read_line r).1 else rest

abbrev pub total : List Text → ℕ
total [] = 0
total (c ∷ cs) = length c + total cs

-- The characters that are still to be read.
abbrev pub remaining : BufReader → ℕ
remaining r = length r.buffer + total r.chunks

unfoldable pub drain_headers : BufReader → Option BufReader
unfolding drain
drain_headers r = drain (suc (remaining r)) r

-- `into_inner`: the buffer is dropped.
unfoldable pub into_inner : BufReader → List Text
into_inner r = r.chunks
