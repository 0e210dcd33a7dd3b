-- ===== src/Command/Soundness.antt =====
-- The commands keep the store sound, over backends that keep to the interface
-- (crates/ssbx/src/main.rs).
use simple_sandbox_public.Prelude.{
  subst, ℕ, ◌≡◌, ◌∙◌, refl, inl, inr, true, false, Bool, Bool-cases, Option, some, List, [], ◌++◌,
  Text, arith,
}
use simple_sandbox_public.Result.{Result, ok, map_err, Result-cases}
use simple_sandbox_public.Exec.Keeps.{
  Keeps, Gives-any, Keeps-pure, Keeps-lift, Keeps-bind, Keeps-map_error,
}
use simple_sandbox_public.Exec.{lift}
use simple_sandbox_public.Text.{codes}
use simple_sandbox_public.Policy.{MechanismKind, SandboxPolicy}
use simple_sandbox_public.Policy.Mechanism.{mechanism_or_auto}
use simple_sandbox_public.Codec.{content_hash}
use simple_sandbox_public.Mechanism.{CreateRequest, CreateResult}
use simple_sandbox_public.Store.{SandboxRecord}
use simple_sandbox_public.Store.Owned.{IsOwned}
use simple_sandbox_public.Store.Files
use simple_sandbox_public.Store.Files.{index_path, policy_io}
use simple_sandbox_public.Store.Files.Soundness.{save_policy-Keeps, insert-Keeps}
use simple_sandbox_public.Command.{
  CommandError, mechanism_failed, io_failed, state_failed, Overrides, prepare,
}
use simple_sandbox_public.Command.Sandboxes.{
  Setting, W, by_backend, mech_box, maybe_start_proxy, secret_env, prepare_image, launch, enter,
  cmd_create, prepare_run, cmd_run, is_podman, or_name, exit_byte,
}
use simple_sandbox_public.Command.Interface.{
  OwnedBy, IsRespectful, IsSoundWorld, mech_box-Leaves, on_disk-Keeps, leaving-Keeps, reading-Keeps,
  lift-Keeps,
}

module _ {Out : Type 0} (S : Setting Out) (IsName OwnsPodman OwnsMac : Text → Type 0)
    (R : IsRespectful S IsName OwnsPodman OwnsMac) where
  abbrev Owned : MechanismKind → Text → Type 0
  Owned = OwnedBy S IsName OwnsPodman OwnsMac

  abbrev Sound : W S → Type 0
  Sound = IsSoundWorld S IsName OwnsPodman OwnsMac

  prepare_run-Keeps :
      (path : Option Text) (o : Overrides) → Keeps Sound (λ _. Unit) (prepare_run S path o)
  unfolding prepare_run
  prepare_run-Keeps path o = record { at = λ w h. (h, Gives-any (prepare_run S path o w).0) }

  new_record-IsOwned :
      (fresh : Text) (now : ℕ) (name : Text) (kind : MechanismKind) (policy : SandboxPolicy)
      (result : CreateResult) (workdir : Text) (made : SandboxRecord)
      → Owned kind result.runtime_id
      → map_err state_failed (
          Files.new_record S.codec S.root fresh now name kind result.runtime_id policy workdir false
            result.proxy_port)
        ≡ ok made
      → IsOwned Owned made
  unfolding Files.new_record
  new_record-IsOwned fresh now name kind policy result workdir made o e =
      elim (Result-cases (map_err policy_io (content_hash S.codec policy))) [
        | inl (hash, p) ↦
            let same : ◌≡◌ {A = MechanismKind × Text} (kind, result.runtime_id)
                (made.mechanism, made.runtime_id) =
              ground arith in
            subst (λ (k, id). Owned k id) same o
        | inr (x, p) ↦ absurd (ground arith)
      ]

  -- A launch leaves the index file as it is, and a sandbox that is launched under such a name has a
  -- runtime identifier of its backend.
  module _ (start : W S) where
    abbrev SameIndex : W S → Type 0
    SameIndex w = w.disk.files (index_path S.root) ≡ start.disk.files (index_path S.root)

    lift-SameIndex : {A : Type 0} (r : Result CommandError A) → Keeps SameIndex (λ _. Unit) (lift r)
    lift-SameIndex r = Keeps-lift r λ a e. tt

    prepare_image-SameIndex :
        (kind : MechanismKind) → Keeps SameIndex (λ _. Unit) (prepare_image S kind)
    unfolding prepare_image
    prepare_image-SameIndex kind = record {
      at = λ w h. (
        (elim (Bool-cases (is_podman kind)) [
          | inl p ↦ rw p (R.image_leaves w ∙ h)
          | inr p ↦ rw p h
        ]),
        tt,
      );
    }

    create-SameIndex :
        (port : Option Text) (kind : MechanismKind) (req : CreateRequest)
        → IsName req.name
        → Keeps SameIndex
            (λ res. Owned kind res.runtime_id)
            (by_backend S ((mech_box S port kind).create req))
    create-SameIndex port kind req n =
        Keeps-map_error mechanism_failed ((mech_box S port kind).create req) (record {
          at = λ w h.
              let (same, owned) =
                (mech_box-Leaves S IsName OwnsPodman OwnsMac R port kind).create_leaves req w n in
              (same ∙ h, owned);
        })

    pub launch-SameIndex :
        (name : Text) (kind : MechanismKind) (policy : SandboxPolicy) (ephemeral : Bool)
        (command : List Text)
        → IsName name
        → Keeps SameIndex
            (λ res. Owned kind res.runtime_id)
            (launch S name kind policy ephemeral command)
    unfolding launch
    launch-SameIndex name kind policy ephemeral command n =
        Keeps-bind _ _ (lift-SameIndex (secret_env S policy)) λ env _.
          Keeps-bind _ _ (lift-SameIndex (maybe_start_proxy S policy)) λ port _.
            Keeps-bind _ _ (prepare_image-SameIndex kind) λ _ _.
              Keeps-bind _ _ (lift-SameIndex (map_err io_failed S.current_dir)) λ workdir _.
                create-SameIndex port kind
                  (record {
                    name = name;
                    policy = policy;
                    workdir = workdir;
                    ephemeral = ephemeral;
                    command = command;
                    env = env;
                  })
                  n

  launch-Keeps :
      (name : Text) (kind : MechanismKind) (policy : SandboxPolicy) (ephemeral : Bool)
      (command : List Text)
      → IsName name
      → Keeps Sound (λ res. Owned kind res.runtime_id) (launch S name kind policy ephemeral command)
  launch-Keeps name kind policy ephemeral command n =
      leaving-Keeps S IsName OwnsPodman OwnsMac R _ (launch S name kind policy ephemeral command)
        λ w. (launch-SameIndex w name kind policy ephemeral command n).at w refl

  enter-Keeps :
      (fresh : Text) (now : ℕ) (name : Text) (kind : MechanismKind) (policy : SandboxPolicy)
      (result : CreateResult)
      → Owned kind result.runtime_id
      → Keeps Sound (λ _. Unit) (enter S fresh now name kind policy result)
  unfolding enter
  enter-Keeps fresh now name kind policy result o =
      Keeps-bind _ _ (lift-Keeps S IsName OwnsPodman OwnsMac R (map_err io_failed S.current_dir))
        λ workdir _.
          Keeps-bind {Q = IsOwned Owned} _ _
            (Keeps-lift
              (map_err state_failed (
                Files.new_record S.codec S.root fresh now name kind result.runtime_id policy workdir
                  false result.proxy_port))
              (λ made e. new_record-IsOwned fresh now name kind policy result workdir made o e))
            λ made o'.
              Keeps-bind _ _
                (on_disk-Keeps S IsName OwnsPodman OwnsMac R
                  (save_policy-Keeps S.codec S.root Owned name policy))
                λ _ _. on_disk-Keeps S IsName OwnsPodman OwnsMac R (
                  insert-Keeps S.codec R.lawful S.root Owned fresh
                    (record made { log_path = some (Files.log_path_for S.root name) }) o')

  pub cmd_create-Keeps :
      (fresh : Text) (now : ℕ) (given path : Option Text) (o : Overrides)
      → IsName (or_name given (codes "default"))
      → Keeps Sound (λ _. Unit) (cmd_create S fresh now given path o)
  unfolding cmd_create
  cmd_create-Keeps fresh now given path o n =
      let name = or_name given (codes "default") in
      Keeps-bind _ _
        (reading-Keeps S IsName OwnsPodman OwnsMac R (prepare S.codec S.extents S.os path o))
        λ policy _.
          Keeps-bind _ _ (launch-Keeps name (mechanism_or_auto policy) policy false [] n)
            λ result owned.
              Keeps-bind _ _
                (enter-Keeps fresh now name (mechanism_or_auto policy) policy result owned)
                λ _ _. Keeps-pure (mechanism_or_auto policy, result) tt

  pub cmd_run-Keeps :
      (stamp : Text) (given path : Option Text) (o : Overrides) (command : List Text)
      → IsName (or_name given (codes "run-" ++ stamp))
      → Keeps Sound (λ _. Unit) (cmd_run S stamp given path o command)
  unfolding cmd_run
  cmd_run-Keeps stamp given path o command n = Keeps-bind _ _ (prepare_run-Keeps path o) λ policy _.
      Keeps-bind _ _
        (launch-Keeps (or_name given (codes "run-" ++ stamp)) (mechanism_or_auto policy) policy true
          command n)
        λ result _. Keeps-pure (exit_byte result.exit_code 0) tt
