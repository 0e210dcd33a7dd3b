-- ===== src/Command/Created.antt =====
-- What the commands do with a sandbox that was just created (crates/ssbx/src/main.rs).
use simple_sandbox_public.Prelude.{
  ℕ, ◌≡◌, refl, sym, subst, ap, ◌∙◌, true, false, Option, some, List, [], Text,
}
use simple_sandbox_public.Result.{ok}
use simple_sandbox_public.Exec.{◌>>=◌, pure}
use simple_sandbox_public.Text.{codes}
use simple_sandbox_public.Policy.{MechanismKind, SandboxPolicy}
use simple_sandbox_public.Policy.Mechanism.{mechanism_or_auto}
use simple_sandbox_public.Codec.{IsLawful}
use simple_sandbox_public.Mechanism.{CreateResult}
use simple_sandbox_public.Store.{SandboxRecord, SandboxState}
use simple_sandbox_public.Store.Lookup.{has_id}
use simple_sandbox_public.Store.Files
use simple_sandbox_public.Store.Files.{index_path, policy_io}
use simple_sandbox_public.Store.Files.Laws.{Holds}
use simple_sandbox_public.Store.Files.Entry.{Means, insert-stored, use_sandbox-insert}
use simple_sandbox_public.Command.{Overrides, prepare}
use simple_sandbox_public.Command.Sandboxes.{
  Setting, W, Action, by_backend, mech_box, exit_byte, or_name, cmd_create,
}
use simple_sandbox_public.Command.Stored.{cmd_exec}
use simple_sandbox_public.Command.Interface.{IsRespectful}
use simple_sandbox_public.Command.Entry.{Entered, cmd_create-Steps}

module _ {Out : Type 0} (S : Setting Out) where
  -- The backend's `exec` on a sandbox, with the exit code.
  abbrev pub resume : Text → MechanismKind → Text → List Text → Action S ℕ
  resume name kind runtime_id command = do
    status ← by_backend S (
        (mech_box S S.proxy_port kind).exec (record {
          name = name;
          runtime_id = runtime_id;
          command = command;
          env = [];
          tty = true;
          cwd = some (codes "/workspace");
        }))
    pure (exit_byte status 1)

  -- The record that is found is as it was entered, and to use it changes nothing.
  cmd_exec-Entered :
      (L : IsLawful S.codec) {fresh name : Text} {kind : MechanismKind} {result : CreateResult}
      {start behind : W S} {r' : SandboxRecord} (target : Option Text) (command : List Text)
      {st : SandboxState}
      → Entered S fresh name kind result start behind r'
      → Holds S.codec S.root st start.disk
      → has_id name st.sandboxes ≡ false
      → Means name target
      → cmd_exec S target command behind ≡ resume name kind result.runtime_id command behind
  unfolding cmd_exec
  cmd_exec-Entered L {fresh} {name} {kind} {result} {start} {behind} {r'} target command {st} n held
        free means =
      let held' : Holds S.codec S.root st n.before.disk = record {
        text = held.text;
        there = n.same_index ∙ held.there;
        reads = held.reads;
      } in
      let left = record n.before {
        disk = (Files.insert S.codec S.root fresh n.inserted n.before.disk).1;
      } in
      let used =
        use_sandbox-insert S.codec S.root fresh n.inserted st n.before.disk held' L n.inserts target
          (subst (λ x. Means x target) (sym n.is_named) means)
          (subst (λ x. has_id x st.sandboxes ≡ false) (sym n.is_named) free) in
      let is = insert-stored S.codec S.root fresh n.inserted st n.before.disk held' L n.inserts in
      let runs : cmd_exec S target command left
          ≡ resume r'.name r'.mechanism r'.runtime_id command left =
        rw used refl in
      subst (λ x. cmd_exec S target command x ≡ resume name kind result.runtime_id command x)
        (sym n.ends)
        (runs
          ∙ ap (λ x. resume x r'.mechanism r'.runtime_id command left)
              (ap (λ x. x.name) (sym is) ∙ n.is_named)
          ∙ ap (λ x. resume name x r'.runtime_id command left)
              (ap (λ x. x.mechanism) (sym is) ∙ n.is_of)
          ∙ ap (λ x. resume name kind x command left) (ap (λ x. x.runtime_id) (sym is) ∙ n.runs_as))

module _ {Out : Type 0} (S : Setting Out) (IsName OwnsPodman OwnsMac : Text → Type 0)
    (R : IsRespectful S IsName OwnsPodman OwnsMac) (fresh : Text) (now : ℕ)
    (given path : Option Text) (o : Overrides) where
  -- Behind a successful `create`, `exec` with the sandbox's name, or with none, is the `exec` of the
  -- backend that the policy names, on the runtime identifier that the creation returned, in the
  -- world that it left. The index could be read before, no older record has the name as its
  -- identifier, the name is one that sandboxes bear, the serialisers are lawful, and the backends
  -- keep to their interface.
  pub cmd_exec-cmd_create :
      (w : W S) {st : SandboxState} {kind : MechanismKind} {res : CreateResult}
      (target : Option Text) (command : List Text)
      → IsName (or_name given (codes "default"))
      → Holds S.codec S.root st w.disk
      → has_id (or_name given (codes "default")) st.sandboxes ≡ false
      → Means (or_name given (codes "default")) target
      → (cmd_create S fresh now given path o w).0 ≡ ok (kind, res)
      → (policy : SandboxPolicy) × (prepare S.codec S.extents S.os path o w.disk ≡ ok policy)
        × (mechanism_or_auto policy ≡ kind)
        × (cmd_exec S target command (cmd_create S fresh now given path o w).1
            ≡ resume S
                (or_name given (codes "default"))
                kind
                res.runtime_id
                command
                (cmd_create S fresh now given path o w).1)
  cmd_exec-cmd_create w {st} {kind} {res} target command n held free means e =
      let s = cmd_create-Steps S IsName OwnsPodman OwnsMac R fresh now given path o w n e in
      let held' : Holds S.codec S.root st s.launched.disk = record {
        text = held.text;
        there = s.same_index ∙ held.there;
        reads = held.reads;
      } in
      (
        s.policy,
        s.prepared,
        s.chosen,
        cmd_exec-Entered S R.lawful target command s.entered held' free means,
      )
