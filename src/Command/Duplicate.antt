-- ===== src/Command/Duplicate.antt =====
-- What `create` does where the name is taken (crates/ssbx/src/main.rs): the backend and the policy
-- file come before the index is asked.
use simple_sandbox_public.Prelude.{
  ℕ, ◌≡◌, refl, sym, subst, ap, ◌∙◌, true, false, inl, inr, Option, none, some, List, [], Text,
  arith,
}
use simple_sandbox_public.Result.{ok, err, map_err, >>=-eq-ok, map_err-eq-ok, Result-cases}
use simple_sandbox_public.Exec.{Exec, lift, ◌>>=◌, pure}
use simple_sandbox_public.Exec.Keeps.{>>=-reaches}
use simple_sandbox_public.Text.{codes}
use simple_sandbox_public.Disk.{Disk}
use simple_sandbox_public.Policy.{MechanismKind, SandboxPolicy}
use simple_sandbox_public.Policy.Mechanism.{mechanism_or_auto}
use simple_sandbox_public.Policy.Validate.Laws.{validate_iff}
use simple_sandbox_public.Policy.Preflight
use simple_sandbox_public.Codec.{content_hash, to_yaml}
use simple_sandbox_public.Mechanism.{CreateResult}
use simple_sandbox_public.Store.{SandboxRecord, SandboxState, already_exists}
use simple_sandbox_public.Store.Index.{has_name}
use simple_sandbox_public.Store.Invariant.{insert_taken}
use simple_sandbox_public.Store.Files
use simple_sandbox_public.Store.Files.{index_path, policy_io}
use simple_sandbox_public.Store.Files.Laws.{Holds}
use simple_sandbox_public.Store.Files.Entry.{save_policy-index, insert_refused}
use simple_sandbox_public.Store.Files.Policies.{load_policy-save_policy}
use simple_sandbox_public.Command.{
  CommandError, state_failed, io_failed, Overrides, prepare, prepare-IsValid,
}
use simple_sandbox_public.Command.Sandboxes.{
  Setting, W, or_name, secret_env, launch, enter, cmd_create,
}
use simple_sandbox_public.Command.Interface.{IsRespectful}
use simple_sandbox_public.Command.Soundness.{launch-SameIndex}

module _ {Out : Type 0} (S : Setting Out) where
  secret_env-current_dir :
      (policy : SandboxPolicy) {env : List (Text × Text)}
      → secret_env S policy ≡ ok env
      → (dir : Text) × (S.current_dir ≡ ok dir)
  unfolding secret_env
  secret_env-current_dir policy e =
      let (dir, p, _) = >>=-eq-ok (map_err io_failed S.current_dir) _ e in
      (dir, map_err-eq-ok io_failed S.current_dir p)

  -- A launch that succeeds has found the working directory.
  launch-current_dir :
      (name : Text) (kind : MechanismKind) (policy : SandboxPolicy) (w : W S) {res : CreateResult}
      → (launch S name kind policy false [] w).0 ≡ ok res
      → (dir : Text) × (S.current_dir ≡ ok dir)
  unfolding launch
  launch-current_dir name kind policy w e =
      let (env, got, _) = >>=-reaches (lift (secret_env S policy)) _ w e in
      secret_env-current_dir policy got

  -- A policy that is saved has a hash.
  new_record_made :
      (fresh : Text) (now : ℕ) (name : Text) (kind : MechanismKind) (policy : SandboxPolicy)
      (result : CreateResult) (workdir : Text) (d : Disk S.codec.Doc) {p : Text}
      → (Files.save_policy S.codec S.root name policy d).0 ≡ ok p
      → (made : SandboxRecord) × (Files.new_record S.codec S.root fresh now name kind
            result.runtime_id policy workdir false result.proxy_port
          ≡ ok made)
        × (made.name ≡ name)
  unfolding Files.new_record Files.save_policy to_yaml content_hash
  new_record_made fresh now name kind policy result workdir d e =
      elim (Result-cases (S.codec.to_yaml policy)) [
        | inl (t, p) ↦ (
          record {
            id = fresh;
            name = name;
            mechanism = kind;
            runtime_id = result.runtime_id;
            policy_hash = S.codec.sha256_hex t;
            workdir = workdir;
            created_at = now;
            proxy_port = result.proxy_port;
            log_path = none;
            ephemeral = false;
          },
          rw p,
          refl,
        )
        | inr (x, p) ↦ absurd (ground arith)
      ]

  -- `enter` of a policy that can be saved, under a name that is taken.
  enter_taken :
      (fresh : Text) (now : ℕ) (name : Text) (kind : MechanismKind) (policy : SandboxPolicy)
      (result : CreateResult) (w : W S) (st : SandboxState) {dir p : Text}
      → S.current_dir ≡ ok dir
      → (Files.save_policy S.codec S.root name policy w.disk).0 ≡ ok p
      → Holds S.codec S.root st w.disk
      → has_name name st.sandboxes ≡ true
      → enter S fresh now name kind policy result w ≡ (
        err (state_failed (already_exists name)),
        record w { disk = (Files.save_policy S.codec S.root name policy w.disk).1 },
      )
  unfolding enter
  enter_taken fresh now name kind policy result w st {dir} in_dir saved held taken =
      let (made, makes, named) =
        new_record_made fresh now name kind policy result dir w.disk saved in
      let d = (Files.save_policy S.codec S.root name policy w.disk).1 in
      let held' : Holds S.codec S.root st d = record {
        text = held.text;
        there =
            ((save_policy-index S.codec S.root name policy (w.disk.files (index_path S.root))).at
              w.disk refl).0
            ∙ held.there;
        reads = held.reads;
      } in
      let r = record made { log_path = some (Files.log_path_for S.root name) } in
      let refused : Files.insert S.codec S.root fresh r d ≡ (err (already_exists name), d) =
        insert_refused S.codec S.root fresh r st d held' (already_exists made.name)
          (insert_taken fresh r st (subst (λ n. has_name n st.sandboxes ≡ true) (sym named) taken))
        ∙ ap (λ n. (err (already_exists n), d)) named in
      rw (in_dir, makes, saved, refused) refl

module _ {Out : Type 0} (S : Setting Out) (IsName OwnsPodman OwnsMac : Text → Type 0)
    (R : IsRespectful S IsName OwnsPodman OwnsMac) (X : Preflight.IsLawful S.extents) (fresh : Text)
    (now : ℕ) (given path : Option Text) (o : Overrides) (w : W S) where
  abbrev new_name : Text
  new_name = or_name given (codes "default")

  abbrev launching : SandboxPolicy → Exec (W S) CommandError CreateResult
  launching policy = launch S new_name (mechanism_or_auto policy) policy false []

  abbrev saving : SandboxPolicy → Files.Store S.codec S.root Text
  saving policy = Files.save_policy S.codec S.root new_name policy

  abbrev behind : W S
  behind = (cmd_create S fresh now given path o w).1

  cmd_create-enter :
      (policy : SandboxPolicy) (result : CreateResult)
      → prepare S.codec S.extents S.os path o w.disk ≡ ok policy
      → (launching policy w).0 ≡ ok result
      → cmd_create S fresh now given path o w ≡ (
          (do
            _ ← enter S fresh now new_name (mechanism_or_auto policy) policy result
            pure (mechanism_or_auto policy, result))
            (launching policy w).1)
  unfolding cmd_create
  cmd_create-enter policy result p l = rw (p, l) refl

  -- `create` under a name that the index holds is refused as taken, but only at its end: the backend
  -- has created the sandbox, and the taken name's policy file holds the policy of the refused
  -- request. The index file is as it was. The policy passes its checks, the launch succeeds, the
  -- policy can be saved, and the serialisers, the backends and the extent engine are lawful.
  pub cmd_create_taken :
      {st : SandboxState} {policy : SandboxPolicy} {result : CreateResult} {p : Text}
      → IsName new_name
      → Holds S.codec S.root st w.disk
      → has_name new_name st.sandboxes ≡ true
      → prepare S.codec S.extents S.os path o w.disk ≡ ok policy
      → (launching policy w).0 ≡ ok result
      → (saving policy (launching policy w).1.disk).0 ≡ ok p
      → ((cmd_create S fresh now given path o w).0 ≡ err (state_failed (already_exists new_name)))
        × (behind.outside ≡ (launching policy w).1.outside)
        × ((Files.load_policy S.codec S.root new_name behind.disk).0 ≡ ok policy)
        × (behind.disk.files (index_path S.root) ≡ w.disk.files (index_path S.root))
  cmd_create_taken {st} {policy} {result} {p} n held taken prepared launched saved =
      let kind = mechanism_or_auto policy in
      let w2 = (launching policy w).1 in
      let same =
        ((launch-SameIndex S IsName OwnsPodman OwnsMac R w new_name kind policy false [] n).at w
          refl).0 in
      let held' : Holds S.codec S.root st w2.disk = record {
        text = held.text;
        there = same ∙ held.there;
        reads = held.reads;
      } in
      let (dir, in_dir) = launch-current_dir S new_name kind policy w launched in
      let refused =
        enter_taken S fresh now new_name kind policy result w2 st in_dir saved held' taken in
      let (valid, _, _) = prepare-IsValid S.codec S.extents X S.os path o w.disk prepared in
      let whole : cmd_create S fresh now given path o w ≡ (
        err (state_failed (already_exists new_name)),
        record w2 { disk = (saving policy w2.disk).1 },
      ) =
        cmd_create-enter policy result prepared launched ∙ rw refused refl in
      let at : behind ≡ record w2 { disk = (saving policy w2.disk).1 } = ap (λ x. x.1) whole in
      (
        ap (λ x. x.0) whole,
        ap (λ x. x.outside) at,
        ap (λ x. (Files.load_policy S.codec S.root new_name x.disk).0) at
            ∙ load_policy-save_policy S.codec R.lawful S.root new_name policy w2.disk
                ((validate_iff policy).1 valid) saved,
        ap (λ x. x.disk.files (index_path S.root)) at
            ∙ ((save_policy-index S.codec S.root new_name policy
                  (w2.disk.files (index_path S.root))).at
                w2.disk refl).0
            ∙ same,
      )
