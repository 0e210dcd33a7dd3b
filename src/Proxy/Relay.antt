-- ===== src/Proxy/Relay.antt =====
-- The relay between a client and the upstream (crates/sandbox-proxy/src/lib.rs). The two directions
-- are two tasks, which share nothing.
use simple_sandbox_public.Prelude.{◌≡◌, refl, ap, Bool, true, false, List, [], ◌∷◌, ◌++◌, Text}
use simple_sandbox_public.Result.{Result, ok, err}

-- What a read gives: bytes, none of them at the end of the stream, or an error.
abbrev pub Read : Type 0
Read = Result Text Text

-- One direction: what is written, from what the reads give and from whether each write succeeds.
-- With no read or write left the stream has ended.
unfoldable pub copy : List Read → List Bool → List Text
copy [] writes = []
copy (err e ∷ reads) writes = []
copy (ok [] ∷ reads) writes = []
copy (ok (b ∷ bytes) ∷ reads) [] = []
copy (ok (b ∷ bytes) ∷ reads) (false ∷ writes) = []
copy (ok (b ∷ bytes) ∷ reads) (true ∷ writes) = (b ∷ bytes) ∷ copy reads writes

-- `relay`: what reaches the right side, and what reaches the left one.
unfoldable pub relay : (List Read × List Bool) → (List Read × List Bool) → List Text × List Text
relay (left_reads, right_writes) (right_reads, left_writes) =
    (copy left_reads right_writes, copy right_reads left_writes)

-- What a side has sent before it ended or failed.
unfoldable pub sent : List Read → List Text
sent [] = []
sent (err e ∷ reads) = []
sent (ok [] ∷ reads) = []
sent (ok (b ∷ bytes) ∷ reads) = (b ∷ bytes) ∷ sent reads

abbrev pub IsPrefix : List Text → List Text → Type 0
IsPrefix xs ys = (rest : List Text) × (ys ≡ xs ++ rest)

copy-IsPrefix : (reads : List Read) (writes : List Bool) → IsPrefix (copy reads writes) (sent reads)
unfolding copy sent
copy-IsPrefix [] writes = ([], refl)
copy-IsPrefix (err e ∷ reads) writes = ([], refl)
copy-IsPrefix (ok [] ∷ reads) writes = ([], refl)
copy-IsPrefix (ok (b ∷ bytes) ∷ reads) [] = (_, refl)
copy-IsPrefix (ok (b ∷ bytes) ∷ reads) (false ∷ writes) = (_, refl)
copy-IsPrefix (ok (b ∷ bytes) ∷ reads) (true ∷ writes) =
    let (rest, e) = copy-IsPrefix reads writes in (rest, ap (λ l. (b ∷ bytes) ∷ l) e)

-- A write for every read, and all of them succeed.
abbrev pub Accepts : List Read → List Bool → Type 0
Accepts [] writes = Unit
Accepts (r ∷ reads) [] = ⊥
Accepts (r ∷ reads) (w ∷ writes) = (w ≡ true) × Accepts reads writes

copy-all :
    (reads : List Read) (writes : List Bool) → Accepts reads writes → copy reads writes ≡ sent reads
unfolding copy sent
copy-all [] writes h = refl
copy-all (err e ∷ reads) writes h = refl
copy-all (ok [] ∷ reads) writes h = refl
copy-all (ok (b ∷ bytes) ∷ reads) [] h = absurd h
copy-all (ok (b ∷ bytes) ∷ reads) (false ∷ writes) (h, hs) = cc h
copy-all (ok (b ∷ bytes) ∷ reads) (true ∷ writes) (h, hs) =
    ap (λ l. (b ∷ bytes) ∷ l) (copy-all reads writes hs)

-- Each side gets a prefix of what the other has sent before it ended or failed, in order and
-- unchanged, whichever writes fail; and all of it, if its own writes succeed, whatever becomes of the
-- other direction.
pub relay_delivers :
    (left right : List Read) (right_writes left_writes : List Bool)
    → IsPrefix (relay (left, right_writes) (right, left_writes)).0 (sent left)
      × IsPrefix (relay (left, right_writes) (right, left_writes)).1 (sent right)
      × (Accepts left right_writes
          → (relay (left, right_writes) (right, left_writes)).0 ≡ sent left)
      × (Accepts right left_writes
          → (relay (left, right_writes) (right, left_writes)).1 ≡ sent right)
unfolding relay
relay_delivers left right right_writes left_writes = (
  copy-IsPrefix left right_writes,
  copy-IsPrefix right left_writes,
  copy-all left right_writes,
  copy-all right left_writes,
)
