-- ===== src/Secrets.antt =====
-- The secrets of a policy (crates/sandbox-core/src/secrets.rs): from where a secret is read, and how
-- it becomes a variable of the sandbox.
pub mod Laws
pub mod Values
mod Tests
use simple_sandbox_public.Prelude.{
  ℕ, ◌≡◌, Bool, true, false, Option, none, some, List, [], ◌∷◌, ◌++◌, Text, text_eq, ◌==◌,
  if◌then◌else◌,
}
use simple_sandbox_public.Result.{Result, ok, err, ◌>>=◌, map_err, ok_or}
use simple_sandbox_public.Text.{codes, strip_prefix, contains_char}
use simple_sandbox_public.Text.Utf8.{as_bytes, from_utf8}
use simple_sandbox_public.FilePath.{is_absolute, join}
use simple_sandbox_public.Policy.{SecretRef}

pub data SecretError : Type 0 where
  unavailable : Text → SecretError
  secure_memory : Text → SecretError
  unsupported : Text → SecretError

-- `LockedBuffer` of the crate secure_memory. An error is its message.
pub record LockedBuffers : Type 1 where
  pub Buffer : Type 0
  pub from_bytes : List ℕ → Result Text Buffer
  pub as_slice : Buffer → Result Text (List ℕ)

-- What is relied on: a buffer shows the bytes that it was made of.
pub record IsLawful (B : LockedBuffers) : Type 0 where
  pub as_slice-from_bytes :
      (bytes : List ℕ) (b : B.Buffer) → B.from_bytes bytes ≡ ok b → B.as_slice b ≡ ok bytes

-- What the process is asked: a variable of its environment, if it is set and valid Unicode, the
-- bytes of a file or the message of the error, and the message on bytes that are no UTF-8.
pub record Process : Type 0 where
  pub var : Text → Option Text
  pub read_file : Text → Result Text (List ℕ)
  pub utf8_message : List ℕ → Text

pub not_set : Text → SecretError
not_set name = unavailable (codes "host env var '" ++ name ++ codes "' not set")

pub not_read : Text → Text → SecretError
not_read path m = unavailable (codes "cannot read secret file " ++ path ++ codes ": " ++ m)

pub not_utf8 : Text → Text → SecretError
not_utf8 name m = unavailable (codes "secret " ++ name ++ codes " not utf-8: " ++ m)

module _ (H : Process) where
  -- The bytes of a variable.
  unfoldable pub var_bytes : Text → Result SecretError (List ℕ)
  var_bytes name = do val ← ok_or (H.var name) (not_set name); ok (as_bytes val)

  -- The bytes of a file, under the search root.
  unfoldable pub file_bytes : Text → Text → Result SecretError (List ℕ)
  file_bytes path search_root =
      let full = if is_absolute path then path else join search_root path in
      map_err (not_read full) (H.read_file full)

  -- What is tried if there is no prefix.
  unfoldable pub plain_bytes : Text → Result SecretError (List ℕ)
  plain_bytes from = if contains_char b':' from then err (unsupported from) else var_bytes from

  unfoldable pub load_secret_bytes : Text → Text → Result SecretError (List ℕ)
  load_secret_bytes from search_root = elim (strip_prefix (codes "env:") from) [
    | some name ↦ var_bytes name
    | none ↦ elim (strip_prefix (codes "file:") from) [
      | some path ↦ file_bytes path search_root
      | none ↦ elim (strip_prefix (codes "value:") from) [
        | some text ↦ ok (as_bytes text)
        | none ↦ plain_bytes from
      ]
    ]
  ]

module _ {A : Type 0} where
  -- `HashMap::insert` on the list of a map's entries: the value of a key that is there is replaced.
  unfoldable pub put : Text → A → List (Text × A) → List (Text × A)
  put k v [] = (k, v) ∷ []
  put k v ((k', v') ∷ rest) =
      let rest' = put k v rest in if k' == k then (k, v) ∷ rest else (k', v') ∷ rest'

  -- The value of a key.
  unfoldable pub find : Text → List (Text × A) → Option A
  find k [] = none
  find k ((k', v) ∷ rest) = if k' == k then some v else find k rest

module _ (B : LockedBuffers) (H : Process) where
  -- A map of variables to buffers. The order of the entries is the map's own.
  abbrev pub SecretMap : Type 0
  SecretMap = List (Text × B.Buffer)

  -- The buffer of one reference.
  unfoldable pub lock : Text → Text → Result SecretError B.Buffer
  lock from search_root = do
    bytes ← load_secret_bytes H from search_root
    map_err secure_memory (B.from_bytes bytes)

  -- The loop, with the map so far.
  unfoldable pub resolve_from : List SecretRef → Text → SecretMap → Result SecretError SecretMap
  resolve_from [] search_root map = ok map
  resolve_from (r ∷ refs) search_root map = do
    buf ← lock r.from search_root
    resolve_from refs search_root (put r.env buf map)

  unfoldable pub resolve_secrets : List SecretRef → Text → Result SecretError SecretMap
  unfolding resolve_from
  resolve_secrets refs search_root = resolve_from refs search_root []

  -- The text of one entry.
  unfoldable pub plaintext : Text → B.Buffer → Result SecretError Text
  plaintext k buf = do
    bytes ← map_err secure_memory (B.as_slice buf)
    ok_or (from_utf8 bytes) (not_utf8 k (H.utf8_message bytes))

  unfoldable pub to_env_pairs : SecretMap → Result SecretError (List (Text × Text))
  to_env_pairs [] = ok []
  to_env_pairs ((k, buf) ∷ rest) = do
    s ← plaintext k buf
    out ← to_env_pairs rest
    ok ((k, s) ∷ out)
