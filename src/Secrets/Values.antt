-- ===== src/Secrets/Values.antt =====
-- Secrets that are written out in the policy, and sources that are refused
-- (crates/sandbox-core/src/secrets.rs).
use mathlib.Core.Option.{some-injective}
use simple_sandbox_public.Prelude.{
  ◌≡◌, refl, ap, sym, ◌∙◌, inl, inr, ◌↔◌, true, none, some, List, ◌++◌, Text, text_eq,
  if◌then◌else◌, arith, All, Bool-cases, Option-cases,
}
use simple_sandbox_public.Result.{ok, err, ok-injective, Result-cases}
use simple_sandbox_public.Text.{codes, strip_prefix, contains_char}
use simple_sandbox_public.Text.Utf8.{as_bytes, from_utf8}
use simple_sandbox_public.Text.Utf8.Laws.{IsScalar, from_utf8-as_bytes}
use simple_sandbox_public.FilePath.{is_absolute, join}
use simple_sandbox_public.Policy.{SecretRef}
use simple_sandbox_public.Secrets.{
  unsupported, LockedBuffers, IsLawful, Process, var_bytes, file_bytes, plain_bytes,
  load_secret_bytes, find, resolve_secrets, to_env_pairs, SecretMap, not_set, not_read,
}
use simple_sandbox_public.Secrets.Laws.{last_from, to_env_pairs-resolve_secrets}

module _ (H : Process) (root : Text) where
  load_value :
      (text : Text) → load_secret_bytes H (codes "value:" ++ text) root ≡ ok (as_bytes text)
  unfolding load_secret_bytes strip_prefix
  load_value text = refl

  -- A secret that the policy writes out behind `value:` is found as it is written, under its name,
  -- in the pairs that the resolved secrets give, if they resolve and no later reference has its
  -- name. The text is of Unicode scalar values, as every Rust text is.
  pub value_secret :
      (B : LockedBuffers) (L : IsLawful B) (refs : List SecretRef) (k text : Text)
      {m : SecretMap B H} {pairs : List (Text × Text)}
      → All IsScalar text
      → last_from k refs ≡ some (codes "value:" ++ text)
      → resolve_secrets B H refs root ≡ ok m
      → to_env_pairs B H m ≡ ok pairs
      → find k pairs ≡ some text
  value_secret B L refs k text scalar last resolved shown =
      elim (to_env_pairs-resolve_secrets B H root L refs k resolved shown) [
        | inr (missing, _) ↦ cc
        | inl (from, s, last', (bytes, loaded, valid), at) ↦
            let same : from ≡ codes "value:" ++ text = some-injective _ _ (sym last' ∙ last) in
            let same' : bytes ≡ as_bytes text =
              ok-injective
                (sym loaded ∙ ap (λ x. load_secret_bytes H x root) same ∙ load_value text) in
            at ∙ sym valid ∙ ap from_utf8 same' ∙ from_utf8-as_bytes text scalar
      ]

  var_bytes-supported : (name x : Text) → var_bytes H name ≡ err (unsupported x) → ⊥
  unfolding var_bytes not_set
  var_bytes-supported name x e = elim (Option-cases (H.var name)) [
    | inl p ↦ ground arith
    | inr (v, p) ↦ ground arith
  ]

  file_bytes-supported : (path x : Text) → file_bytes H path root ≡ err (unsupported x) → ⊥
  unfolding file_bytes not_read
  file_bytes-supported path x e =
      elim (Result-cases (H.read_file (if is_absolute path then path else join root path))) [
        | inl (v, p) ↦ let no : ok v ≡ err (unsupported x) = rw p at e in cc
        | inr (m, p) ↦ let no : err (not_read _ m) ≡ err (unsupported x) = rw p at e in cc
      ]

  -- No prefix that the code knows.
  pub record IsPlain (from : Text) : Type 0 where
    pub not_env : strip_prefix (codes "env:") from ≡ none
    pub not_file : strip_prefix (codes "file:") from ≡ none
    pub not_value : strip_prefix (codes "value:") from ≡ none

  -- A source is refused as unsupported exactly if it has a colon and none of the prefixes `env:`,
  -- `file:` and `value:`.
  pub load_unsupported_iff :
      (from : Text)
      → (load_secret_bytes H from root ≡ err (unsupported from))
        ↔ (IsPlain from × (contains_char b':' from ≡ true))
  unfolding load_secret_bytes strip_prefix
  load_unsupported_iff from = (
    λ e. elim (Option-cases (strip_prefix (codes "env:") from)) [
      | inr (name, p) ↦ absurd (var_bytes-supported name from (rw p at e))
      | inl p ↦ elim (Option-cases (strip_prefix (codes "file:") from)) [
        | inr (path, q) ↦ absurd (file_bytes-supported path from (rw (p, q) at e))
        | inl q ↦ elim (Option-cases (strip_prefix (codes "value:") from)) [
          | inr (text, r) ↦
              let no : ok (as_bytes text) ≡ err (unsupported from) = rw (p, q, r) at e in cc
          | inl r ↦ elim (Bool-cases (contains_char b':' from)) [
            | inl c ↦ (record { not_env = p; not_file = q; not_value = r }, c)
            | inr c ↦
                absurd (var_bytes-supported from from (unfold plain_bytes in rw (p, q, r, c) at e))
          ]
        ]
      ]
    ],
    λ (h, c). rw (h.not_env, h.not_file, h.not_value) (unfold plain_bytes in rw c),
  )
