-- ===== src/Command/Removed.antt =====
-- What `rm` does with a sandbox that was just created (crates/ssbx/src/main.rs).
use simple_sandbox_public.Prelude.{◌≡◌, Text}
use simple_sandbox_public.Policy.{MechanismKind}
use simple_sandbox_public.Store.{SandboxState}
use simple_sandbox_public.Store.Files
use simple_sandbox_public.Store.Files.{index_path}
use simple_sandbox_public.Store.Files.Laws.{Holds}
use simple_sandbox_public.Store.Files.Withdrawal.{restored}
use simple_sandbox_public.Command.Sandboxes.{Setting, W, Action, by_backend, mech_box}
use simple_sandbox_public.Command.Stored.{cmd_rm}

module _ {Out : Type 0} (S : Setting Out) where
  -- The backend's `remove`.
  abbrev pub withdraw : MechanismKind → Text → Action S (Unit {0})
  withdraw kind runtime_id = by_backend S ((mech_box S S.proxy_port kind).remove runtime_id)

  -- What `rm` comes to in a world: the backend is asked in one where the index is restored already.
  abbrev Withdraws : Text → MechanismKind → Text → SandboxState → W S → Type 0
  Withdraws name kind runtime_id st w =
      (asked : W S) × (asked.outside ≡ w.outside)
      × Holds S.codec S.root (restored st) asked.disk
      × (cmd_rm S name w ≡ withdraw kind runtime_id asked)
