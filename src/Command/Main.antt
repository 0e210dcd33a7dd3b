-- ===== src/Command/Main.antt =====
-- The program from its arguments to its exit code (crates/ssbx/src/main.rs). clap makes a `Cli` of
-- the command line.
use simple_sandbox_public.Prelude.{ℕ, Bool, Option, none, some, List, [], Text}
use simple_sandbox_public.Result.{Result, ok, err}
use simple_sandbox_public.Text.{codes}
use simple_sandbox_public.Text.Hex.{hex}
use simple_sandbox_public.Float.{F64}
use simple_sandbox_public.FilePath.{join}
use simple_sandbox_public.Policy.{MechanismKind}
use simple_sandbox_public.Policy as Policy
use simple_sandbox_public.Store.Files
use simple_sandbox_public.Command.{CommandError, Overrides}
use simple_sandbox_public.Command.Sandboxes.{
  Setting, W, Action, on_disk, mech_box, or_name, cmd_create, cmd_run,
}
use simple_sandbox_public.Command.Stored.{
  Commands, cmd_exec, cmd_shell, cmd_policy_get, cmd_policy_set, cmd_ls, cmd_rm, cmd_logs,
  cmd_doctor,
}
use simple_sandbox_public.Command.Stored as Stored
use simple_sandbox_public.Command.Output.{
  Printer, Printed, printed, unprintable, broken, print_created, print_policy, print_updated,
  print_list, print_removed, print_items,
}

pub data MechArg : Type 0 where
  podman : MechArg
  mac : MechArg
  krun : MechArg
  auto : MechArg

-- `From<MechArg> for MechanismKind`
unfoldable pub kind_of : MechArg → MechanismKind
kind_of podman = Policy.podman
kind_of mac = Policy.mac
kind_of krun = Policy.krun
kind_of auto = Policy.auto

pub data PolicyCmd : Type 0 where
  get : Option Text → PolicyCmd
  set : Option Text → Text → PolicyCmd

-- The arguments of a command, in the order of their declaration.
pub data Arguments : Type 0 where
  create :
      (name policy : Option Text) (mechanism : Option MechArg) (cpus : Option F64)
      (memory : Option Text)
      → Arguments
  run :
      (policy : Option Text) (mechanism : Option MechArg) (cpus : Option F64)
      (memory name : Option Text) (command : List Text)
      → Arguments
  exec : Option Text → List Text → Arguments
  shell : Option Text → Arguments
  policy : PolicyCmd → Arguments
  ls : Arguments
  rm : Text → Arguments
  logs : Option Text → ℕ → Arguments
  doctor : Option MechArg → Arguments

pub record Cli : Type 0 where
  pub config : Option Text
  pub json : Bool
  pub command : Arguments

-- What a run takes from outside: a fresh identifier, the time for a record, and the milliseconds
-- since the epoch.
pub record Draw : Type 0 where
  pub fresh : Text
  pub now : ℕ
  pub millis : ℕ

-- `format!("{t:x}")` of the milliseconds, which fit in 128 bits.
unfoldable pub uuid_simple : ℕ → Text
unfolding hex
uuid_simple millis = hex millis

abbrev kind_option : Option MechArg → Option MechanismKind
kind_option none = none
kind_option (some m) = some (kind_of m)

abbrev pub overrides_of : Option MechArg → Option F64 → Option Text → Overrides
overrides_of mechanism cpus memory = record {
  cpus = cpus;
  memory = memory;
  mechanism = kind_option mechanism;
}

-- The command that `run` chooses.
unfoldable pub command_of : Draw → Arguments → Commands
command_of d (create name path mechanism cpus memory) =
    Stored.create d.fresh d.now name path (overrides_of mechanism cpus memory)
command_of d (run path mechanism cpus memory name command) =
    Stored.run (uuid_simple d.millis) name path (overrides_of mechanism cpus memory) command
command_of d (exec name command) = Stored.exec name command
command_of d (shell name) = Stored.shell name
command_of d (policy (get name)) = Stored.policy_get name
command_of d (policy (set name path)) = Stored.policy_set name path
command_of d ls = Stored.ls
command_of d (rm name) = Stored.rm name
command_of d (logs name tail) = Stored.logs name tail
command_of d (doctor mechanism) = Stored.doctor (kind_option mechanism)

-- `default_config_dir`, where `base` is what `dirs::config_dir` gives.
unfoldable pub default_config_dir : Option Text → Text
default_config_dir base = join (or_name base (codes ".")) (codes "simple-sandbox")

-- How a run ends: `run` returns a code or an error, or something panics.
pub data Ending : Type 0 where
  returned : ℕ → Ending
  failed : CommandError → Ending
  panicked : Ending

-- The exit code of the process. A panic of the main thread gives 101.
unfoldable pub exit_code : Ending → ℕ
exit_code (returned code) = code
exit_code (failed e) = 1
exit_code panicked = 101

-- A run with what it prints itself; a child has its own output.
pub record Ended : Type 0 where
  pub ending : Ending
  pub stdout : Text

-- A text that the standard output takes, or takes a part of.
abbrev pub wrote : Option Text → Text → Ended
wrote none out = record { ending = returned 0; stdout = out }
wrote (some part) out = record { ending = panicked; stdout = part }

-- What is printed in front of a panic.
abbrev pub broke : Option Text → Text → Ended
broke none out = record { ending = panicked; stdout = out }
broke (some part) out = record { ending = panicked; stdout = part }

abbrev pub ended : {Doc : Type 0} → Printer Doc → Printed → Ended
ended P (printed out) = wrote (P.fails_after out) out
ended P (unprintable e) = record { ending = failed e; stdout = [] }
ended P (broken out) = broke (P.fails_after out) out

abbrev pub shown : {A : Type 0} → (A → Ended) → Result CommandError A → Ended
shown show (ok a) = show a
shown show (err e) = record { ending = failed e; stdout = [] }

-- A command that prints nothing, but has a code.
abbrev pub coded : ℕ → Ended
coded code = record { ending = returned code; stdout = [] }

module _ {Out : Type 0} (S : Setting Out) (P : Printer S.codec.Doc) where
  -- An action with the end of its command.
  abbrev pub finish : {A : Type 0} → (A → Ended) → Action S A → W S → Ended × W S
  finish show m w = (shown show (m w).0, (m w).1)

  -- A command with what it prints.
  unfoldable pub perform : Bool → Commands → W S → Ended × W S
  perform json (Stored.create fresh now name path o) =
      finish
        (λ (kind, result). ended P (
          print_created P json (or_name name (codes "default")) (mech_box S S.proxy_port kind).name
            result))
        (cmd_create S fresh now name path o)
  perform json (Stored.run stamp name path o command) =
      finish coded (cmd_run S stamp name path o command)
  perform json (Stored.exec name command) = finish coded (cmd_exec S name command)
  perform json (Stored.shell name) = finish coded (cmd_shell S name)
  perform json (Stored.policy_get name) =
      finish (λ p. ended P (print_policy S.codec P json p)) (cmd_policy_get S name)
  perform json (Stored.policy_set name path) =
      finish (λ name'. ended P (print_updated name')) (cmd_policy_set S name path)
  perform json Stored.ls = finish (λ list. ended P (print_list P json list)) (cmd_ls S)
  perform json (Stored.rm name) = finish (λ _. ended P (print_removed name)) (cmd_rm S name)
  perform json (Stored.logs name tail) =
      finish (λ out. ended P (printed out)) (cmd_logs S name tail)
  perform json (Stored.doctor mechanism) =
      finish (λ items. ended P (print_items P json items)) (cmd_doctor S mechanism)

  abbrev pub behind_open : Result CommandError (Unit {0}) → Bool → Commands → W S → Ended × W S
  behind_open (ok _) json c w = perform json c w
  behind_open (err e) json c w = (record { ending = failed e; stdout = [] }, w)

  -- `run`: the store is opened first.
  unfoldable pub run_cli : Bool → Commands → W S → Ended × W S
  run_cli json c w =
      let opened = on_disk S (Files.open_store S.codec S.root) w in
      behind_open opened.0 json c opened.1

-- `main`, in the configuration directory of the command line or the default one.
unfoldable pub main :
    {Out : Type 0} (S : Setting Out)
    → Printer S.codec.Doc
    → Option Text
    → Draw
    → Cli
    → W S
    → Ended × W S
main S P base d cli w =
    run_cli (record S { root = or_name cli.config (default_config_dir base) }) P cli.json
      (command_of d cli.command) w
