-- ===== src/Command/Runs.antt =====
-- Runs of the program keep the store (crates/ssbx/src/main.rs): what a run prints does not change
-- what its command does, and the first run makes the index.
use simple_sandbox_public.Prelude.{
  ℕ, ◌≡◌, refl, subst, sym, inl, inr, inr, Bool, Option, List, [], ◌∷◌, Text, All,
}
use simple_sandbox_public.Result.{Result, ok, err, map_err-eq-ok}
use simple_sandbox_public.Exec.{after, pure}
use simple_sandbox_public.Store.Files
use simple_sandbox_public.Store.Files.Opening.{
  IsUsable, Stays, IsUsable-Stays, IsKept-Stays, open_store-Opens,
}
use simple_sandbox_public.Command.{CommandError, state_failed}
use simple_sandbox_public.Command.Sandboxes.{Setting, W, Action, on_disk, or_name, cmd_create}
use simple_sandbox_public.Command.Stored.{
  Commands, exits, dispatch, cmd_policy_get, cmd_policy_set, cmd_ls, cmd_rm, cmd_logs, cmd_doctor,
}
use simple_sandbox_public.Command.Stored as Stored
use simple_sandbox_public.Command.Output.{Printer}
use simple_sandbox_public.Command.Main.{
  Cli, Draw, command_of, default_config_dir, perform, behind_open, run_cli, main,
}
use simple_sandbox_public.Command.Interface.{IsRespectful, IsNamed, IsSoundWorld, OwnedBy}
use simple_sandbox_public.Command.Reach.{dispatch-Keeps}

-- Runs of the program, one after the other, each whether it succeeds or fails.
unfoldable pub main_all :
    {Out : Type 0} (S : Setting Out)
    → Printer S.codec.Doc
    → Option Text
    → List (Draw × Cli)
    → W S
    → W S
main_all S P base [] w = w
main_all S P base ((d, cli) ∷ runs) w = main_all S P base runs (main S P base d cli w).1

module _ {Out : Type 0} (S : Setting Out) where
  after_exits :
      {A : Type 0} (r : Result CommandError A) (w : W S)
      → (after {S = W S} {B = ℕ} r (λ _. pure 0) w).1 ≡ w
  after_exits (ok a) w = refl
  after_exits (err e) w = refl

  exits-world : {A : Type 0} (m : Action S A) (w : W S) → (exits S m w).1 ≡ (m w).1
  exits-world m w = after_exits (m w).0 (m w).1

  -- A command changes the world whether it prints or not.
  pub perform-dispatch :
      (P : Printer S.codec.Doc) (json : Bool) (c : Commands) (w : W S)
      → (dispatch S c w).1 ≡ (perform S P json c w).1
  unfolding perform dispatch
  perform-dispatch P json (Stored.create fresh now name path o) w =
      exits-world (cmd_create S fresh now name path o) w
  perform-dispatch P json (Stored.run stamp name path o command) w = refl
  perform-dispatch P json (Stored.exec name command) w = refl
  perform-dispatch P json (Stored.shell name) w = refl
  perform-dispatch P json (Stored.policy_get name) w = exits-world (cmd_policy_get S name) w
  perform-dispatch P json (Stored.policy_set name path) w =
      exits-world (cmd_policy_set S name path) w
  perform-dispatch P json Stored.ls w = exits-world (cmd_ls S) w
  perform-dispatch P json (Stored.rm name) w = exits-world (cmd_rm S name) w
  perform-dispatch P json (Stored.logs name tail) w = exits-world (cmd_logs S name tail) w
  perform-dispatch P json (Stored.doctor mechanism) w = exits-world (cmd_doctor S mechanism) w

module _ {Out : Type 0} (S : Setting Out) (IsName OwnsPodman OwnsMac : Text → Type 0)
    (R : IsRespectful S IsName OwnsPodman OwnsMac) (P : Printer S.codec.Doc) where
  -- A directory that has no index yet, or a sound store.
  abbrev pub IsUsableWorld : W S → Type 0
  IsUsableWorld w = IsUsable S.codec R.lawful S.root (OwnedBy S IsName OwnsPodman OwnsMac) w.disk

  -- A sound store stays sound; where there is no index, there may be a sound store later.
  abbrev pub StaysSound : (w : W S) → IsUsableWorld w → W S → Type 0
  StaysSound w h w' = Stays S.codec R.lawful S.root (OwnedBy S IsName OwnsPodman OwnsMac) h w'.disk

  behind_open-StaysSound :
      (r : Result CommandError (Unit {0})) (json : Bool) (c : Commands) (start w : W S)
      (h : IsUsableWorld start)
      → IsNamed S IsName OwnsPodman OwnsMac c
      → StaysSound start h w
      → (r ≡ ok tt → IsSoundWorld S IsName OwnsPodman OwnsMac w)
      → StaysSound start h (behind_open S P r json c w).1
  behind_open-StaysSound (err e) json c start w h n stays opens = stays
  behind_open-StaysSound (ok u) json c start w h n stays opens =
      IsKept-Stays S.codec R.lawful S.root (OwnedBy S IsName OwnsPodman OwnsMac) h (
        subst (IsSoundWorld S IsName OwnsPodman OwnsMac) (perform-dispatch S P json c w)
          ((dispatch-Keeps S IsName OwnsPodman OwnsMac R c n).at w (opens refl)).0)

  run_cli-StaysSound :
      (json : Bool) (c : Commands) (w : W S) (h : IsUsableWorld w)
      → IsNamed S IsName OwnsPodman OwnsMac c
      → StaysSound w h (run_cli S P json c w).1
  unfolding run_cli
  run_cli-StaysSound json c w h n =
      let opened = on_disk S (Files.open_store S.codec S.root) w in
      let (stays, kept) =
        open_store-Opens S.codec R.lawful S.root (OwnedBy S IsName OwnsPodman OwnsMac) w.disk h in
      behind_open-StaysSound opened.0 json c w opened.1 h n stays
        (λ e. kept (map_err-eq-ok state_failed _ e))

  -- A run in the directory of the setting, whose new sandbox has a name that the backends bear.
  abbrev pub IsRun : Option Text → Draw × Cli → Type 0
  IsRun base (d, cli) =
      (or_name cli.config (default_config_dir base) ≡ S.root)
      × IsNamed S IsName OwnsPodman OwnsMac (command_of d cli.command)

  main-StaysSound :
      (base : Option Text) (d : Draw) (cli : Cli) (w : W S) (h : IsUsableWorld w)
      → IsRun base (d, cli)
      → StaysSound w h (main S P base d cli w).1
  unfolding main
  main-StaysSound base d cli w h (same, n) =
      subst
        (λ root.
          StaysSound w h
            (run_cli (record S { root = root }) P cli.json (command_of d cli.command) w).1)
        (sym same) (run_cli-StaysSound cli.json (command_of d cli.command) w h n)

  -- Whatever runs of the program follow one another in the directory, a sound store stays sound, and
  -- where there was no index there is none yet, or a sound store.
  pub main_all-StaysSound :
      (base : Option Text) (runs : List (Draw × Cli)) (w : W S) (h : IsUsableWorld w)
      → All (IsRun base) runs
      → StaysSound w h (main_all S P base runs w)
  unfolding main_all
  main_all-StaysSound base [] w h n =
      IsUsable-Stays S.codec R.lawful S.root (OwnedBy S IsName OwnsPodman OwnsMac) h
  main_all-StaysSound base ((d, cli) ∷ runs) w (inr h) (n, ns) =
      main_all-StaysSound base runs (main S P base d cli w).1
        (inr (main-StaysSound base d cli w (inr h) n)) ns
  main_all-StaysSound base ((d, cli) ∷ runs) w (inl e) (n, ns) =
      elim (main-StaysSound base d cli w (inl e) n) [
        | inl e' ↦ main_all-StaysSound base runs (main S P base d cli w).1 (inl e') ns
        | inr h ↦ inr (main_all-StaysSound base runs (main S P base d cli w).1 (inr h) ns)
      ]
