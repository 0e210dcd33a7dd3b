-- ===== src/Secrets/Tests.antt =====
-- Tests of the secrets, and their theorems at concrete inputs (crates/sandbox-core/src/secrets.rs).
use simple_sandbox_public.Secrets.{var_bytes}
use simple_sandbox_public.Prelude.{
  ℕ, ◌≡◌, refl, ◌⊎◌, ◌↔◌, true, none, some, List, [], ◌∷◌, ◌++◌, Text, text_eq, arith, All,
}
use simple_sandbox_public.Result.{ok, err}
use simple_sandbox_public.Text.{codes, strip_prefix, contains_char}
use simple_sandbox_public.Text.Utf8.{as_bytes, from_utf8, is_scalar}
use simple_sandbox_public.Text.Utf8.Laws.{IsScalar}
use simple_sandbox_public.Policy.{SecretRef}
use simple_sandbox_public.Secrets.{
  unsupported, LockedBuffers, IsLawful, Process, load_secret_bytes, put, find, resolve_secrets,
  lock, plaintext, to_env_pairs, SecretMap,
}
use simple_sandbox_public.Secrets.Laws.{last_from, Reads, to_env_pairs-resolve_secrets}
use simple_sandbox_public.Secrets.Values.{value_secret, IsPlain, load_unsupported_iff}

abbrev buffers : LockedBuffers
buffers = record { Buffer = List ℕ; from_bytes = λ b. ok b; as_slice = λ b. ok b }

buffers-IsLawful : IsLawful buffers
buffers-IsLawful = record { as_slice-from_bytes = λ bytes b e. cc }

abbrev process : Process
process = record {
  var = λ n. some (codes "v");
  read_file = λ p. err (codes "missing");
  utf8_message = λ b. codes "invalid";
}

abbrev token : Text
token = codes "TOKEN"

-- The second reference replaces the first.
abbrev refs : List SecretRef
refs =
    record { env = token; from = codes "env:HOST" }
    ∷ record { env = token; from = codes "value:abc" }
    ∷ []

abbrev resolved : SecretMap buffers process
resolved = (token, codes "abc") ∷ []

abbrev pairs : List (Text × Text)
pairs = (token, codes "abc") ∷ []

resolves : resolve_secrets buffers process refs [] ≡ ok resolved
unfolding resolve_secrets lock load_secret_bytes strip_prefix var_bytes put text_eq as_bytes
resolves = refl

shows : to_env_pairs buffers process resolved ≡ ok pairs
unfolding to_env_pairs plaintext from_utf8
shows = refl

to_env_pairs-resolve_secrets_example :
    ((from : Text) × (s : Text) × (last_from token refs ≡ some from)
      × Reads buffers process [] from s
      × (find token pairs ≡ some s))
    ⊎ ((last_from token refs ≡ none) × (find token pairs ≡ none))
to_env_pairs-resolve_secrets_example =
    to_env_pairs-resolve_secrets buffers process [] buffers-IsLawful refs token resolves shows

abc-IsScalar : All IsScalar (codes "abc")
unfolding is_scalar
abc-IsScalar = ground arith

last_value : last_from token refs ≡ some (codes "value:" ++ codes "abc")
unfolding last_from text_eq
last_value = refl

value_secret_example : find token pairs ≡ some (codes "abc")
value_secret_example =
    value_secret process [] buffers buffers-IsLawful refs token (codes "abc") abc-IsScalar
      last_value resolves shows

load_unsupported_iff_example :
    (load_secret_bytes process (codes "vault:x") [] ≡ err (unsupported (codes "vault:x")))
    ↔ (IsPlain process [] (codes "vault:x") × (contains_char b':' (codes "vault:x") ≡ true))
load_unsupported_iff_example = load_unsupported_iff process [] (codes "vault:x")
