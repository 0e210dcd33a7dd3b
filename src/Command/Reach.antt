-- ===== src/Command/Reach.antt =====
-- Every command, and every sequence of commands, keeps the store sound (crates/ssbx/src/main.rs).
use simple_sandbox_public.Prelude.{ℕ, true, Option, some, List, [], ◌∷◌, Text, All}
use simple_sandbox_public.Result.{map_err}
use simple_sandbox_public.Exec.Keeps.{
  Keeps, Gives-any, Keeps-pure, Keeps-lift, Keeps-bind, Keeps-map_error,
}
use simple_sandbox_public.Text.{codes}
use simple_sandbox_public.Disk.{read, read-disk}
use simple_sandbox_public.Policy.{MechanismKind}
use simple_sandbox_public.Policy.Preflight.{host_default, run_preflight}
use simple_sandbox_public.Codec.{parse_yaml, load_file}
use simple_sandbox_public.Mechanism.{Leaves}
use simple_sandbox_public.Store.{io}
use simple_sandbox_public.Store.Owned.{IsOwned}
use simple_sandbox_public.Store.Files
use simple_sandbox_public.Store.Files.{index_path, policy_path, policy_io}
use simple_sandbox_public.Store.Files.Soundness.{
  IsKept, load_index-Keeps, update_policy-Keeps, remove-Keeps, get_or_last-Keeps, use_sandbox-Keeps,
}
use simple_sandbox_public.Command.{policy_failed}
use simple_sandbox_public.Command.Sandboxes.{Setting, W, Action, mech_box, exit_byte}
use simple_sandbox_public.Command.Stored.{
  Commands, create, run, exec, shell, policy_get, policy_set, ls, rm, logs, doctor, cmd_exec,
  shell_of, cmd_shell, cmd_policy_get, cmd_policy_set, cmd_ls, cmd_rm, cmd_logs, cmd_doctor, exits,
  dispatch, dispatch_all,
}
use simple_sandbox_public.Command.Interface.{
  OwnedBy, IsRespectful, IsNamed, IsSoundWorld, mech_box-Leaves, on_disk-Keeps, by_backend-Keeps,
  reading-Keeps, lift-Keeps,
}
use simple_sandbox_public.Command.Soundness.{cmd_create-Keeps, cmd_run-Keeps}

module _ {Out : Type 0} (S : Setting Out) (IsName OwnsPodman OwnsMac : Text → Type 0)
    (R : IsRespectful S IsName OwnsPodman OwnsMac) where
  abbrev Owned : MechanismKind → Text → Type 0
  Owned = OwnedBy S IsName OwnsPodman OwnsMac

  abbrev Sound : W S → Type 0
  Sound = IsSoundWorld S IsName OwnsPodman OwnsMac

  box-Leaves :
      (kind : MechanismKind)
      → Leaves (index_path S.root) IsName (Owned kind) (mech_box S S.proxy_port kind)
  box-Leaves kind = mech_box-Leaves S IsName OwnsPodman OwnsMac R S.proxy_port kind

  abbrev Keeping : {A : Type 0} → Action S A → Type 0
  Keeping m = Keeps Sound (λ _. Unit) m

  found-Keeps :
      (name : Option Text)
      → Keeps (IsKept S.codec S.root Owned) (IsOwned Owned) (Files.get_or_last S.codec S.root name)
  found-Keeps name = get_or_last-Keeps S.codec R.lawful S.root Owned name

  cmd_exec-Keeps : (name : Option Text) (command : List Text) → Keeping (cmd_exec S name command)
  unfolding cmd_exec
  cmd_exec-Keeps name command =
      Keeps-bind _ _
        (on_disk-Keeps S IsName OwnsPodman OwnsMac R
          (use_sandbox-Keeps S.codec R.lawful S.root Owned name))
        λ rec o.
          Keeps-bind _ _
            (by_backend-Keeps S IsName OwnsPodman OwnsMac R (λ _. Unit)
              ((mech_box S S.proxy_port rec.mechanism).exec (record {
                name = rec.name;
                runtime_id = rec.runtime_id;
                command = command;
                env = [];
                tty = true;
                cwd = some (codes "/workspace");
              }))
              λ w. ((box-Leaves rec.mechanism).exec_leaves _ w o, Gives-any _))
            λ status _. Keeps-pure (exit_byte status 1) tt

  cmd_shell-Keeps : (name : Option Text) → Keeping (cmd_shell S name)
  unfolding cmd_shell
  cmd_shell-Keeps name =
      Keeps-bind _ _ (on_disk-Keeps S IsName OwnsPodman OwnsMac R (found-Keeps name))
        λ rec _. cmd_exec-Keeps name (shell_of S S.os rec.mechanism)

  read-Keeps :
      (p : Text) → Keeps (IsKept S.codec S.root Owned) (λ _. Unit) (read {Doc = S.codec.Doc} p)
  read-Keeps p = record { at = λ d h. (rw (read-disk p d) h, Gives-any _) }

  load_policy-Keeps :
      (name : Text)
      → Keeps (IsKept S.codec S.root Owned) (λ _. Unit) (Files.load_policy S.codec S.root name)
  unfolding Files.load_policy
  load_policy-Keeps name =
      Keeps-bind _ _ (Keeps-map_error io _ (read-Keeps (policy_path S.root name)))
        λ t _. Keeps-lift (map_err policy_io (parse_yaml S.codec t)) λ p e. tt

  cmd_policy_get-Keeps : (name : Option Text) → Keeping (cmd_policy_get S name)
  unfolding cmd_policy_get
  cmd_policy_get-Keeps name =
      Keeps-bind _ _ (on_disk-Keeps S IsName OwnsPodman OwnsMac R (found-Keeps name))
        λ rec _. on_disk-Keeps S IsName OwnsPodman OwnsMac R (load_policy-Keeps rec.name)

  cmd_policy_set-Keeps : (name : Option Text) (path : Text) → Keeping (cmd_policy_set S name path)
  unfolding cmd_policy_set
  cmd_policy_set-Keeps name path =
      Keeps-bind _ _ (on_disk-Keeps S IsName OwnsPodman OwnsMac R (found-Keeps name)) λ rec _.
        Keeps-bind _ _
          (reading-Keeps S IsName OwnsPodman OwnsMac R
            (λ d. map_err policy_failed (load_file S.codec path d)))
          λ p _.
            Keeps-bind _ _
              (lift-Keeps S IsName OwnsPodman OwnsMac R
                (map_err policy_failed (run_preflight S.extents p host_default)))
              λ _ _.
                Keeps-bind _ _
                  (on_disk-Keeps S IsName OwnsPodman OwnsMac R
                    (update_policy-Keeps S.codec R.lawful S.root Owned rec.name p))
                  λ _ _. Keeps-pure rec.name tt

  list-Keeps : Keeps (IsKept S.codec S.root Owned) (λ _. Unit) (Files.list S.codec S.root)
  unfolding Files.list
  list-Keeps =
      Keeps-bind _ _ (load_index-Keeps S.codec S.root Owned) λ st _. Keeps-pure st.sandboxes tt

  cmd_ls-Keeps : Keeping (cmd_ls S)
  unfolding cmd_ls
  cmd_ls-Keeps = on_disk-Keeps S IsName OwnsPodman OwnsMac R list-Keeps

  cmd_rm-Keeps : (name : Text) → Keeping (cmd_rm S name)
  unfolding cmd_rm
  cmd_rm-Keeps name =
      Keeps-bind _ _
        (on_disk-Keeps S IsName OwnsPodman OwnsMac R
          (remove-Keeps S.codec R.lawful S.root Owned name))
        λ rec o.
          by_backend-Keeps S IsName OwnsPodman OwnsMac R (λ _. Unit)
            ((mech_box S S.proxy_port rec.mechanism).remove rec.runtime_id)
            λ w. ((box-Leaves rec.mechanism).remove_leaves _ w o, Gives-any _)

  cmd_logs-Keeps : (name : Option Text) (tail : ℕ) → Keeping (cmd_logs S name tail)
  unfolding cmd_logs
  cmd_logs-Keeps name tail =
      Keeps-bind _ _ (on_disk-Keeps S IsName OwnsPodman OwnsMac R (found-Keeps name)) λ rec o.
        by_backend-Keeps S IsName OwnsPodman OwnsMac R (λ _. Unit)
          ((mech_box S S.proxy_port rec.mechanism).logs rec.runtime_id tail)
          λ w. ((box-Leaves rec.mechanism).logs_leaves _ tail w o, Gives-any _)

  cmd_doctor-Keeps : (mechanism : Option MechanismKind) → Keeping (cmd_doctor S mechanism)
  unfolding cmd_doctor
  cmd_doctor-Keeps mechanism = record { at = λ w h. (h, tt) }

  exits-Keeps : {A : Type 0} {m : Action S A} → Keeping m → Keeping (exits S m)
  exits-Keeps {A} {m} k = Keeps-bind m _ k λ _ _. Keeps-pure 0 tt

  pub dispatch-Keeps :
      (c : Commands) → IsNamed S IsName OwnsPodman OwnsMac c → Keeping (dispatch S c)
  unfolding dispatch
  dispatch-Keeps (create fresh now name path o) n =
      exits-Keeps (cmd_create-Keeps S IsName OwnsPodman OwnsMac R fresh now name path o n)
  dispatch-Keeps (run stamp name path o command) n =
      cmd_run-Keeps S IsName OwnsPodman OwnsMac R stamp name path o command n
  dispatch-Keeps (exec name command) n = cmd_exec-Keeps name command
  dispatch-Keeps (shell name) n = cmd_shell-Keeps name
  dispatch-Keeps (policy_get name) n = exits-Keeps (cmd_policy_get-Keeps name)
  dispatch-Keeps (policy_set name path) n = exits-Keeps (cmd_policy_set-Keeps name path)
  dispatch-Keeps ls n = exits-Keeps cmd_ls-Keeps
  dispatch-Keeps (rm name) n = exits-Keeps (cmd_rm-Keeps name)
  dispatch-Keeps (logs name tail) n = exits-Keeps (cmd_logs-Keeps name tail)
  dispatch-Keeps (doctor mechanism) n = exits-Keeps (cmd_doctor-Keeps mechanism)

  -- Whatever commands follow one another, and whichever of them fail, a sound store stays sound: its
  -- index file is there, is read back and is well-formed, and every record's runtime identifier is
  -- of its backend's making. The serialisers are lawful, the backends leave the index file as it is
  -- while they act on identifiers of their own, and new sandboxes have names that they bear.
  pub dispatch_all-IsSoundWorld :
      (cs : List Commands) (w : W S)
      → All (IsNamed S IsName OwnsPodman OwnsMac) cs
      → Sound w
      → Sound (dispatch_all S cs w)
  unfolding dispatch_all
  dispatch_all-IsSoundWorld [] w n h = h
  dispatch_all-IsSoundWorld (c ∷ cs) w (n, ns) h =
      dispatch_all-IsSoundWorld cs (dispatch S c w).1 ns ((dispatch-Keeps c n).at w h).0
