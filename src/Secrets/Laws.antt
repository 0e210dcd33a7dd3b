-- ===== src/Secrets/Laws.antt =====
-- Which variables the sandbox gets, and with what values (crates/sandbox-core/src/secrets.rs).
use mathlib.Core.Option.{some-injective}
use simple_sandbox_public.Prelude.{
  ℕ, ◌≡◌, refl, ap, sym, ◌∙◌, ◌⊎◌, inl, inr, Option, none, some, List, [], ◌∷◌, Text, text_eq, ◌==◌,
  if◌then◌else◌, arith, Bool-cases, subst,
}
use simple_sandbox_public.Result.{ok, map_err, >>=-eq-ok, map_err-eq-ok, ok_or-eq-ok, ok-injective}
use simple_sandbox_public.Text.Utf8.{from_utf8}
use simple_sandbox_public.Policy.{SecretRef}
use simple_sandbox_public.Secrets.{
  LockedBuffers, IsLawful, Process, load_secret_bytes, put, find, lock, resolve_from,
  resolve_secrets, plaintext, to_env_pairs, SecretMap, secure_memory,
}

module _ {A : Type 0} where
  -- The map after an insertion, by its lookups.
  pub find-put :
      (k q : Text) (v : A) (l : List (Text × A))
      → find q (put k v l) ≡ (if k == q then some v else find q l)
  unfolding find put
  find-put k q v [] = refl
  find-put k q v ((k', v') ∷ l) = ground (arith, find-put k q v l)

find_nil : {A : Type 0} (k : Text) → find {A = A} k [] ≡ none
unfolding find
find_nil k = refl

-- The source of a variable: the last reference with its name decides.
unfoldable pub last_from : Text → List SecretRef → Option Text
last_from k [] = none
last_from k (r ∷ refs) = elim (last_from k refs) [
  | some from ↦ some from
  | none ↦ if r.env == k then some r.from else none
]

module _ (B : LockedBuffers) (H : Process) (root : Text) where
  -- The map holds the buffers of the sources, or what it held before.
  abbrev Resolved : List SecretRef → SecretMap B H → SecretMap B H → Text → Type 0
  Resolved refs m m' k =
      ((from : Text) × (b : B.Buffer) × (last_from k refs ≡ some from)
        × (lock B H from root ≡ ok b)
        × (find k m' ≡ some b))
      ⊎ ((last_from k refs ≡ none) × (find k m' ≡ find k m))

  resolve_from-find :
      (refs : List SecretRef) (m m' : SecretMap B H) (k : Text)
      → resolve_from B H refs root m ≡ ok m'
      → Resolved refs m m' k
  unfolding resolve_from last_from
  resolve_from-find [] m m' k e = inr (refl, cc)
  resolve_from-find (r ∷ refs) m m' k e =
      let (b, locked, rest) = >>=-eq-ok (lock B H r.from root) _ e in
      elim (resolve_from-find refs (put r.env b m) m' k rest) [
        | inl (from, b', found, lock', at) ↦ inl (from, b', rw found, lock', at)
        | inr (missing, at) ↦ elim (Bool-cases (r.env == k)) [
          | inl p ↦ inl (r.from, b, rw (missing, p), locked, at ∙ find-put r.env k b m ∙ rw p)
          | inr p ↦ inr (rw (missing, p), at ∙ find-put r.env k b m ∙ rw p)
        ]
      ]

  -- A map's entry is shown under its key, and no other key is there.
  abbrev Shown : SecretMap B H → List (Text × Text) → Text → Type 0
  Shown m pairs k =
      ((b : B.Buffer) × (s : Text) × (find k m ≡ some b)
        × (plaintext B H k b ≡ ok s)
        × (find k pairs ≡ some s))
      ⊎ ((find k m ≡ none) × (find k pairs ≡ none))

  Shown-cons :
      (k' : Text) (b : B.Buffer) (m : SecretMap B H) (s : Text) (out : List (Text × Text))
      (k : Text)
      → plaintext B H k' b ≡ ok s
      → Shown m out k
      → Shown ((k', b) ∷ m) ((k', s) ∷ out) k
  unfolding find
  Shown-cons k' b m s out k text rest = elim (Bool-cases (k' == k)) [
    | inl p ↦
        let same : k' ≡ k = ground arith in
        inl (b, s, rw p, subst (λ x. plaintext B H x b ≡ ok s) same text, rw p)
    | inr p ↦ elim rest [
      | inl (b', s', at, text', at') ↦ inl (b', s', rw p at, text', rw p at')
      | inr (at, at') ↦ inr (rw p at, rw p at')
    ]
  ]

  to_env_pairs-find :
      (m : SecretMap B H) (pairs : List (Text × Text)) (k : Text)
      → to_env_pairs B H m ≡ ok pairs
      → Shown m pairs k
  unfolding to_env_pairs
  to_env_pairs-find [] pairs k e =
      let same : ◌≡◌ {A = List (Text × Text)} [] pairs = cc in
      subst (λ l. Shown [] l k) same (inr (unfold find in refl, unfold find in refl))
  to_env_pairs-find ((k', b) ∷ m) pairs k e =
      let (s, text, rest) = >>=-eq-ok (plaintext B H k' b) _ e in
      let (out, shown, done) = >>=-eq-ok (to_env_pairs B H m) _ rest in
      let same : ◌≡◌ {A = List (Text × Text)} ((k', s) ∷ out) pairs = cc done in
      subst (λ l. Shown ((k', b) ∷ m) l k) same
        (Shown-cons k' b m s out k text (to_env_pairs-find m out k shown))

  -- What the bytes of a source stand for.
  abbrev pub Reads : Text → Text → Type 0
  Reads from s =
      (bytes : List ℕ) × (load_secret_bytes H from root ≡ ok bytes) × (from_utf8 bytes ≡ some s)

  plaintext-lock :
      (L : IsLawful B) (k from : Text) (b : B.Buffer) (s : Text)
      → lock B H from root ≡ ok b
      → plaintext B H k b ≡ ok s
      → Reads from s
  unfolding lock plaintext
  plaintext-lock L k from b s locked text =
      let (bytes, loaded, made) = >>=-eq-ok (load_secret_bytes H from root) _ locked in
      let (bytes', shown, valid) = >>=-eq-ok (map_err secure_memory (B.as_slice b)) _ text in
      let same : bytes ≡ bytes' = ok-injective (
        sym (ap (map_err secure_memory) (L.as_slice-from_bytes bytes b (map_err-eq-ok _ _ made)))
        ∙ shown) in
      (bytes, loaded, ap from_utf8 same ∙ ok_or-eq-ok _ _ valid)

  -- If the secrets resolve and are turned into variables, a variable is set exactly if a reference
  -- names it, and then to the UTF-8 text of the bytes that the last such reference's source gives;
  -- buffers show the bytes that they were made of.
  pub to_env_pairs-resolve_secrets :
      (L : IsLawful B) (refs : List SecretRef) {m : SecretMap B H} {pairs : List (Text × Text)}
      (k : Text)
      → resolve_secrets B H refs root ≡ ok m
      → to_env_pairs B H m ≡ ok pairs
      → ((from : Text) × (s : Text) × (last_from k refs ≡ some from)
          × Reads from s
          × (find k pairs ≡ some s))
        ⊎ ((last_from k refs ≡ none) × (find k pairs ≡ none))
  unfolding resolve_secrets
  to_env_pairs-resolve_secrets L refs {m} {pairs} k resolved shown =
      elim (resolve_from-find refs [] m k resolved) [
        | inl (from, b, last, locked, at) ↦ elim (to_env_pairs-find m pairs k shown) [
          | inl (b', s, at', text, at'') ↦
              let same : b' ≡ b = some-injective b' b (sym at' ∙ at) in
              inl (
                from,
                s,
                last,
                plaintext-lock L k from b s locked
                    (subst (λ x. plaintext B H k x ≡ ok s) same text),
                at'',
              )
          | inr (at', _) ↦ cc
        ]
        | inr (missing, at) ↦ elim (to_env_pairs-find m pairs k shown) [
          | inl (b', s, at', _, _) ↦ cc (at, at', find_nil {A = B.Buffer} k)
          | inr (_, at') ↦ inr (missing, at')
        ]
      ]
