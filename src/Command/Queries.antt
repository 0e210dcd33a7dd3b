-- ===== src/Command/Queries.antt =====
-- The commands that only ask the store change nothing behind its opening, which makes the
-- directories and the index where they are missing (crates/ssbx/src/main.rs).
use simple_sandbox_public.Prelude.{◌≡◌, refl, sym, ap, ◌∙◌, Option, Text, Bool}
use simple_sandbox_public.Result.{Result, ok, err, map_err}
use simple_sandbox_public.Exec.Keeps.{
  Keeps, Gives-any, Keeps-pure, Keeps-lift, Keeps-bind, Keeps-map_error,
}
use simple_sandbox_public.Disk.{Disk, read, read-disk}
use simple_sandbox_public.Codec.{Codec, parse_yaml}
use simple_sandbox_public.Store.{io, json}
use simple_sandbox_public.Store.Index
use simple_sandbox_public.Store.Files
use simple_sandbox_public.Store.Files.{index_path, policy_path, policy_io}
use simple_sandbox_public.Command.{CommandError, state_failed}
use simple_sandbox_public.Command.Sandboxes.{Setting, W, Action, on_disk}
use simple_sandbox_public.Command.Stored.{
  Commands, policy_get, policy_set, cmd_policy_get, cmd_ls, exits, dispatch,
}
use simple_sandbox_public.Command.Stored as Stored
use simple_sandbox_public.Command.Output.{Printer}
use simple_sandbox_public.Command.Main.{
  Arguments, create, run, exec, shell, policy, get, set, ls, rm, logs, doctor, Cli, Draw,
  command_of, behind_open, run_cli, main,
}
use simple_sandbox_public.Command.Panics.{configured}
use simple_sandbox_public.Command.Runs.{perform-dispatch}

-- The commands that ask the store alone.
abbrev pub IsQuery : Commands → Type 0
IsQuery (Stored.create fresh now name path o) = ⊥
IsQuery (Stored.run stamp name path o command) = ⊥
IsQuery (Stored.exec name command) = ⊥
IsQuery (Stored.shell name) = ⊥
IsQuery (policy_get name) = Unit
IsQuery (policy_set name path) = ⊥
IsQuery Stored.ls = Unit
IsQuery (Stored.rm name) = ⊥
IsQuery (Stored.logs name tail) = ⊥
IsQuery (Stored.doctor mechanism) = ⊥

module _ (C : Codec) (root : Text) (start : Disk C.Doc) where
  abbrev Same : Disk C.Doc → Type 0
  Same d = d ≡ start

  abbrev Reading : {A : Type 0} → Files.Store C root A → Type 0
  Reading m = Keeps Same (λ _. Unit) m

  read-Same : (p : Text) → Keeps Same (λ _. Unit) (read {Doc = C.Doc} p)
  read-Same p = record { at = λ d h. (read-disk p d ∙ h, Gives-any (read p d).0) }

  load_index-Same : Reading (Files.load_index C root)
  unfolding Files.load_index
  load_index-Same =
      Keeps-bind _ _ (Keeps-map_error io _ (read-Same (index_path root)))
        λ t _. Keeps-lift (map_err json (C.from_json t)) λ st e. tt

  list-Same : Reading (Files.list C root)
  unfolding Files.list
  list-Same = Keeps-bind _ _ load_index-Same λ st _. Keeps-pure st.sandboxes tt

  get_or_last-Same : (name : Option Text) → Reading (Files.get_or_last C root name)
  unfolding Files.get_or_last
  get_or_last-Same name =
      Keeps-bind _ _ load_index-Same λ st _. Keeps-lift (Index.get_or_last name st) λ r e. tt

  load_policy-Same : (name : Text) → Reading (Files.load_policy C root name)
  unfolding Files.load_policy
  load_policy-Same name =
      Keeps-bind _ _ (Keeps-map_error io _ (read-Same (policy_path root name)))
        λ t _. Keeps-lift (map_err policy_io (parse_yaml C t)) λ p e. tt

module _ {Out : Type 0} (S : Setting Out) (start : W S) where
  abbrev Stays : W S → Type 0
  Stays w = w ≡ start

  on_disk-Stays :
      {A : Type 0} {m : Files.Store S.codec S.root A}
      → Keeps (λ d. d ≡ start.disk) (λ _. Unit) m
      → Keeps Stays (λ _. Unit) (on_disk S m)
  on_disk-Stays {m = m} k = Keeps-map_error state_failed _ (record {
    at = λ w h.
        let (same, q) = k.at w.disk (ap (λ x. x.disk) h) in
        (ap (λ d. record w { disk = d }) (same ∙ sym (ap (λ x. x.disk) h)) ∙ h, q);
  })

  cmd_policy_get-Stays : (name : Option Text) → Keeps Stays (λ _. Unit) (cmd_policy_get S name)
  unfolding cmd_policy_get
  cmd_policy_get-Stays name =
      Keeps-bind _ _ (on_disk-Stays (get_or_last-Same S.codec S.root start.disk name))
        λ rec _. on_disk-Stays (load_policy-Same S.codec S.root start.disk rec.name)

  cmd_ls-Stays : Keeps Stays (λ _. Unit) (cmd_ls S)
  unfolding cmd_ls
  cmd_ls-Stays = on_disk-Stays (list-Same S.codec S.root start.disk)

  exits-Stays :
      {A : Type 0} {m : Action S A}
      → Keeps Stays (λ _. Unit) m
      → Keeps Stays (λ _. Unit) (exits S m)
  exits-Stays {m = m} k = Keeps-bind m _ k λ _ _. Keeps-pure 0 tt

-- Once the store is open, `ls` and `policy get` leave the world as it is.
dispatch-IsQuery :
    {Out : Type 0} (S : Setting Out) (c : Commands) (w : W S) → IsQuery c → (dispatch S c w).1 ≡ w
unfolding dispatch
dispatch-IsQuery S (policy_get name) w q =
    ((exits-Stays S w (cmd_policy_get-Stays S w name)).at w refl).0
dispatch-IsQuery S Stored.ls w q = ((exits-Stays S w (cmd_ls-Stays S w)).at w refl).0
dispatch-IsQuery S (Stored.create fresh now name path o) w q = absurd q
dispatch-IsQuery S (Stored.run stamp name path o command) w q = absurd q
dispatch-IsQuery S (Stored.exec name command) w q = absurd q
dispatch-IsQuery S (Stored.shell name) w q = absurd q
dispatch-IsQuery S (policy_set name path) w q = absurd q
dispatch-IsQuery S (Stored.rm name) w q = absurd q
dispatch-IsQuery S (Stored.logs name tail) w q = absurd q
dispatch-IsQuery S (Stored.doctor mechanism) w q = absurd q

module _ {Out : Type 0} (S : Setting Out) (w : W S) where
  -- The opening of the store, with the world behind it.
  abbrev pub opened : Result CommandError (Unit {0}) × W S
  opened = on_disk S (Files.open_store S.codec S.root) w

module _ {Out : Type 0} (S : Setting Out) (P : Printer S.codec.Doc) where
  behind_open-IsQuery :
      (as_json : Bool) (c : Commands) (r : Result CommandError (Unit {0})) (w : W S)
      → IsQuery c
      → (behind_open S P r as_json c w).1 ≡ w
  behind_open-IsQuery as_json c (ok u) w q =
      sym (perform-dispatch S P as_json c w) ∙ dispatch-IsQuery S c w q
  behind_open-IsQuery as_json c (err e) w q = refl

  run_cli-IsQuery :
      (as_json : Bool) (c : Commands) (w : W S)
      → IsQuery c
      → (run_cli S P as_json c w).1 ≡ (opened S w).1
  unfolding run_cli
  run_cli-IsQuery as_json c w q = behind_open-IsQuery as_json c (opened S w).0 (opened S w).1 q

-- The invocations that ask the store alone.
abbrev pub Asks : Arguments → Type 0
Asks (create name path mechanism cpus memory) = ⊥
Asks (run path mechanism cpus memory name command) = ⊥
Asks (exec name command) = ⊥
Asks (shell name) = ⊥
Asks (policy (get name)) = Unit
Asks (policy (set name path)) = ⊥
Asks ls = Unit
Asks (rm name) = ⊥
Asks (logs name tail) = ⊥
Asks (doctor mechanism) = ⊥

Asks-IsQuery : (d : Draw) (c : Arguments) → Asks c → IsQuery (command_of d c)
unfolding command_of
Asks-IsQuery d (policy (get name)) q = tt
Asks-IsQuery d ls q = tt
Asks-IsQuery d (create name path mechanism cpus memory) q = absurd q
Asks-IsQuery d (run path mechanism cpus memory name command) q = absurd q
Asks-IsQuery d (exec name command) q = absurd q
Asks-IsQuery d (shell name) q = absurd q
Asks-IsQuery d (policy (set name path)) q = absurd q
Asks-IsQuery d (rm name) q = absurd q
Asks-IsQuery d (logs name tail) q = absurd q
Asks-IsQuery d (doctor mechanism) q = absurd q

-- The program's `ls` and `policy get` change the world by the opening of the store alone: whether
-- they succeed or fail, they leave the world that it left.
pub main-Asks :
    {Out : Type 0} (S : Setting Out) (P : Printer S.codec.Doc) (base : Option Text) (d : Draw)
    (cli : Cli) (w : W S)
    → Asks cli.command
    → (main S P base d cli w).1 ≡ (opened (configured S base cli) w).1
unfolding main
main-Asks S P base d cli w q =
    run_cli-IsQuery (configured S base cli) P cli.json (command_of d cli.command) w
      (Asks-IsQuery d cli.command q)
