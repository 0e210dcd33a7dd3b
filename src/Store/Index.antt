-- ===== src/Store/Index.antt =====
-- What the methods of `Store` do to the index between reading and writing it
-- (crates/sandbox-core/src/state.rs).
use simple_sandbox_public.Prelude.{
  Bool, false, ◌||◌, Option, none, some, List, [], ◌∷◌, ◌++◌, Text, text_eq, option_eq, ◌==◌,
  if◌then◌else◌,
}
use simple_sandbox_public.Result.{Result, ok, err, ok_or, ◌>>=◌}
use simple_sandbox_public.Text.{codes, is_empty}
use simple_sandbox_public.Store.{StateError, not_found, already_exists, SandboxRecord, SandboxState}

-- `s.name == name || s.id == name`
unfoldable pub is_called : Text → SandboxRecord → Bool
is_called name s = s.name == name || s.id == name

-- `Iterator::find` with that test.
unfoldable pub find_called : Text → List SandboxRecord → Option SandboxRecord
find_called name [] = none
find_called name (s ∷ rest) = if is_called name s then some s else find_called name rest

-- `slice::last`
unfoldable pub last : List SandboxRecord → Option SandboxRecord
last [] = none
last (s ∷ []) = some s
last (s ∷ t ∷ rest) = last (t ∷ rest)

-- `iter().any(|s| s.name == name)`
unfoldable pub has_name : Text → List SandboxRecord → Bool
has_name name [] = false
has_name name (s ∷ rest) = s.name == name || has_name name rest

pub no_sandboxes : Text
no_sandboxes = codes "(no sandboxes)"

-- `get`
unfoldable pub get : Text → SandboxState → Result StateError SandboxRecord
get name st = ok_or (find_called name st.sandboxes) (not_found name)

-- The end of `get_or_last`: the last record of the list.
unfoldable pub newest : SandboxState → Result StateError SandboxRecord
newest st = ok_or (last st.sandboxes) (not_found no_sandboxes)

-- `get_or_last` with no name, at the value of `last_used`.
unfoldable pub last_or_newest : Option Text → SandboxState → Result StateError SandboxRecord
last_or_newest none st = newest st
last_or_newest (some l) st = elim (find_called l st.sandboxes) [ none ↦ newest st | some s ↦ ok s ]

unfoldable pub get_or_last : Option Text → SandboxState → Result StateError SandboxRecord
get_or_last (some name) st = get name st
get_or_last none st = last_or_newest st.last_used st

-- `insert`, where `fresh` is what `Uuid::new_v4` gives.
unfoldable pub insert :
    Text → SandboxRecord → SandboxState → Result StateError (SandboxRecord × SandboxState)
insert fresh r st =
    if has_name r.name st.sandboxes
    then err (already_exists r.name)
    else let r' = record r { id = if is_empty r.id then fresh else r.id } in
      ok (r', record { last_used = some r.name; sandboxes = st.sandboxes ++ r' ∷ [] })

-- `iter_mut().find(|s| s.name == name)` with the assignment of the hash.
unfoldable pub assign_hash : Text → Text → List SandboxRecord → Option (List SandboxRecord)
assign_hash name hash [] = none
assign_hash name hash (s ∷ rest) =
    let rest' = assign_hash name hash rest in
    if s.name == name
    then some (record s { policy_hash = hash } ∷ rest)
    else elim rest' [ none ↦ none | some l ↦ some (s ∷ l) ]

-- `update_policy`
unfoldable pub set_hash : Text → Text → SandboxState → Result StateError SandboxState
set_hash name hash st = do
  l ← ok_or (assign_hash name hash st.sandboxes) (not_found name)
  ok (record { last_used = some name; sandboxes = l })

-- `position` and `Vec::remove`: the first record that is called so, and the others.
unfoldable pub take_out : Text → List SandboxRecord → Option (SandboxRecord × List SandboxRecord)
take_out name [] = none
take_out name (s ∷ rest) =
    let rest' = take_out name rest in
    if is_called name s
    then some (s, rest)
    else elim rest' [ none ↦ none | some (r, l) ↦ some (r, s ∷ l) ]

abbrev pub name_of : Option SandboxRecord → Option Text
name_of none = none
name_of (some s) = some s.name

-- `remove`
unfoldable pub remove : Text → SandboxState → Result StateError (SandboxRecord × SandboxState)
remove name st = do
  (r, l) ← ok_or (take_out name st.sandboxes) (not_found name)
  let used = if st.last_used == some r.name then name_of (last l) else st.last_used
  ok (r, record { last_used = used; sandboxes = l })

-- `touch_last_used`
unfoldable pub touch : Text → SandboxState → SandboxState
touch name st = record st { last_used = some name }
