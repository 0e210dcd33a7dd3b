-- ===== src/Command/Stored.antt =====
-- The commands of ssbx on the sandboxes of the store, and the choice of a command
-- (crates/ssbx/src/main.rs).
use simple_sandbox_public.Prelude.{
  ℕ, true, Option, none, some, List, [], ◌∷◌, ◌++◌, Text, text_eq, if◌then◌else◌,
}
use simple_sandbox_public.Result.{ok, map_err}
use simple_sandbox_public.Exec.{◌>>=◌, ◌>>◌, pure, lift}
use simple_sandbox_public.Text.{codes}
use simple_sandbox_public.Policy.{MechanismKind, podman, mac, krun, network_mode_eq, SandboxPolicy}
use simple_sandbox_public.Policy.Mechanism.{TargetOs, macos, linux, other_os, resolve_mechanism}
use simple_sandbox_public.Policy.Preflight.{host_default, run_preflight}
use simple_sandbox_public.Codec.{load_file}
use simple_sandbox_public.Mechanism.{DoctorItem}
use simple_sandbox_public.Store.{SandboxRecord}
use simple_sandbox_public.Store.Files
use simple_sandbox_public.Command.{policy_failed, Overrides}
use simple_sandbox_public.Command.Sandboxes.{
  Setting, W, Action, on_disk, by_backend, reading, mech_box, is_podman, exit_byte, cmd_create,
  cmd_run,
}

-- `Commands`, with the kind that `MechArg` stands for, and with what a new sandbox takes from
-- outside: an identifier and a time, or a stamp.
pub data Commands : Type 0 where
  create : Text → ℕ → Option Text → Option Text → Overrides → Commands
  run : Text → Option Text → Option Text → Overrides → List Text → Commands
  exec : Option Text → List Text → Commands
  shell : Option Text → Commands
  policy_get : Option Text → Commands
  policy_set : Option Text → Text → Commands
  ls : Commands
  rm : Text → Commands
  logs : Option Text → ℕ → Commands
  doctor : Option MechanismKind → Commands

-- The items of a backend, with its name in front.
unfoldable pub named_items : Text → List DoctorItem → List DoctorItem
named_items name [] = []
named_items name (i ∷ items) = record i { name = name ++ b'/' ∷ i.name } ∷ named_items name items

abbrev pub future_item : DoctorItem
future_item = record {
  name = codes "future/linux-bwrap";
  is_ok = true;
  detail = codes "planned: linux host with rootless podman + bubblewrap (not in mac-first v1)";
}

abbrev pub kinds_of : TargetOs → Option MechanismKind → List MechanismKind
kinds_of os none = podman ∷ mac ∷ krun ∷ []
kinds_of os (some m) = resolve_mechanism os m ∷ []

module _ {Out : Type 0} (S : Setting Out) where
  unfoldable pub cmd_exec : Option Text → List Text → Action S ℕ
  cmd_exec name command = do
    rec ← on_disk S (Files.use_sandbox S.codec S.root name)
    status ← by_backend S (
        (mech_box S S.proxy_port rec.mechanism).exec (record {
          name = rec.name;
          runtime_id = rec.runtime_id;
          command = command;
          env = [];
          tty = true;
          cwd = some (codes "/workspace");
        }))
    pure (exit_byte status 1)

  abbrev pub shell_of : TargetOs → MechanismKind → List Text
  shell_of os kind = if is_podman kind then codes "sh" ∷ codes "-i" ∷ [] else (elim os [
    | macos ↦ codes "/bin/zsh" ∷ codes "-i" ∷ []
    | linux ↦ codes "/bin/sh" ∷ codes "-i" ∷ []
    | other_os ↦ codes "/bin/sh" ∷ codes "-i" ∷ []
  ])

  -- `Commands::Shell`
  unfoldable pub cmd_shell : Option Text → Action S ℕ
  cmd_shell name = do
    rec ← on_disk S (Files.get_or_last S.codec S.root name)
    cmd_exec name (shell_of S.os rec.mechanism)

  -- `PolicyCmd::Get`, and `PolicyCmd::Set`, which gives the name of the sandbox
  unfoldable pub cmd_policy_get : Option Text → Action S SandboxPolicy
  cmd_policy_get name = do
    rec ← on_disk S (Files.get_or_last S.codec S.root name)
    on_disk S (Files.load_policy S.codec S.root rec.name)

  unfoldable pub cmd_policy_set : Option Text → Text → Action S Text
  cmd_policy_set name path = do
    rec ← on_disk S (Files.get_or_last S.codec S.root name)
    p ← reading S (λ d. map_err policy_failed (load_file S.codec path d))
    lift (map_err policy_failed (run_preflight S.extents p host_default))
    on_disk S (Files.update_policy S.codec S.root rec.name p)
    pure rec.name

  unfoldable pub cmd_ls : Action S (List SandboxRecord)
  cmd_ls = on_disk S (Files.list S.codec S.root)

  unfoldable pub cmd_rm : Text → Action S (Unit {0})
  cmd_rm name = do
    rec ← on_disk S (Files.remove S.codec S.root name)
    by_backend S ((mech_box S S.proxy_port rec.mechanism).remove rec.runtime_id)

  unfoldable pub cmd_logs : Option Text → ℕ → Action S Text
  cmd_logs name tail = do
    rec ← on_disk S (Files.get_or_last S.codec S.root name)
    by_backend S ((mech_box S S.proxy_port rec.mechanism).logs rec.runtime_id tail)

  -- What the backends of the kinds report.
  unfoldable pub all_items : List MechanismKind → W S → List DoctorItem
  all_items [] w = future_item ∷ []
  all_items (k ∷ ks) w =
      let mech = mech_box S S.proxy_port k in
      named_items mech.name (mech.doctor w) ++ all_items ks w

  unfoldable pub cmd_doctor : Option MechanismKind → Action S (List DoctorItem)
  cmd_doctor mechanism w = (ok (all_items (kinds_of S.os mechanism) w), w)

  -- The exit code 0 behind a command that has none of its own.
  abbrev pub exits : {A : Type 0} → Action S A → Action S ℕ
  exits m = do _ ← m; pure 0

  -- `run` behind the opening of the store.
  unfoldable pub dispatch : Commands → Action S ℕ
  dispatch (create fresh now name path o) = exits (cmd_create S fresh now name path o)
  dispatch (run stamp name path o command) = cmd_run S stamp name path o command
  dispatch (exec name command) = cmd_exec name command
  dispatch (shell name) = cmd_shell name
  dispatch (policy_get name) = exits (cmd_policy_get name)
  dispatch (policy_set name path) = exits (cmd_policy_set name path)
  dispatch ls = exits cmd_ls
  dispatch (rm name) = exits (cmd_rm name)
  dispatch (logs name tail) = exits (cmd_logs name tail)
  dispatch (doctor mechanism) = exits (cmd_doctor mechanism)

  -- One command after the other, each whether it succeeds or fails.
  unfoldable pub dispatch_all : List Commands → W S → W S
  dispatch_all [] w = w
  dispatch_all (c ∷ cs) w = dispatch_all cs (dispatch c w).1
