-- ===== src/Command/Panics.antt =====
-- Where the program panics (crates/ssbx/src/main.rs): the slice in `cmd_ls`, and the
-- printing to a standard output that fails.
use simple_sandbox_public.Prelude.{◌≡◌, Option, List, Text, Any}
use simple_sandbox_public.Result.{Result, ok}
use simple_sandbox_public.Store.{SandboxRecord}
use simple_sandbox_public.Store.Files
use simple_sandbox_public.Command.{CommandError}
use simple_sandbox_public.Command.Sandboxes.{Setting, W, on_disk, or_name}
use simple_sandbox_public.Command.Stored.{cmd_ls}
use simple_sandbox_public.Command.Stored as Stored
use simple_sandbox_public.Command.Output.{Printer}
use simple_sandbox_public.Command.Output.Cuts.{IsCut, TakesAll}
use simple_sandbox_public.Command.Main.{Cli, default_config_dir}

module _ {Out : Type 0} (S : Setting Out) (P : Printer S.codec.Doc) (takes : TakesAll P) where
  -- What `ls` lists.
  abbrev Cuts : Result CommandError (List SandboxRecord) → Type 0
  Cuts r = (l : List SandboxRecord) × (r ≡ ok l) × Any (λ s. IsCut s.runtime_id) l

module _ {Out : Type 0} (S : Setting Out) (base : Option Text) (cli : Cli) where
  -- The setting with the configuration directory of the run.
  abbrev pub configured : Setting Out
  configured = record S { root = or_name cli.config (default_config_dir base) }

  -- What the store lists once it is open.
  abbrev pub Lists : W S → List SandboxRecord → Type 0
  Lists w l =
      ((on_disk configured (Files.open_store S.codec configured.root) w).0 ≡ ok tt)
      × ((cmd_ls configured (on_disk configured (Files.open_store S.codec configured.root) w).1).0
          ≡ ok l)
