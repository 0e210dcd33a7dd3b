-- ===== src/Command/Entry.antt =====
-- The steps of a creation that succeeds (crates/ssbx/src/main.rs).
use simple_sandbox_public.Prelude.{
  ℕ, ◌≡◌, refl, sym, subst, ap, ◌∙◌, inl, inr, false, Option, some, [], Text, arith,
}
use simple_sandbox_public.Result.{ok, map_err, map_err-eq-ok, ok-injective, Result-cases}
use simple_sandbox_public.Exec.{lift}
use simple_sandbox_public.Exec.Keeps.{Gives, >>=-reaches}
use simple_sandbox_public.Text.{codes}
use simple_sandbox_public.Policy.{MechanismKind, SandboxPolicy}
use simple_sandbox_public.Policy.Mechanism.{mechanism_or_auto}
use simple_sandbox_public.Codec.{content_hash}
use simple_sandbox_public.Mechanism.{CreateResult}
use simple_sandbox_public.Store.{SandboxRecord}
use simple_sandbox_public.Store.Files
use simple_sandbox_public.Store.Files.{index_path, policy_io}
use simple_sandbox_public.Store.Files.Entry.{save_policy-index}
use simple_sandbox_public.Command.{state_failed, io_failed, Overrides, prepare}
use simple_sandbox_public.Command.Sandboxes.{
  Setting, W, reading, on_disk, or_name, launch, enter, cmd_create,
}
use simple_sandbox_public.Command.Interface.{IsRespectful, OwnedBy}
use simple_sandbox_public.Command.Soundness.{launch-SameIndex}

module _ {Out : Type 0} (S : Setting Out) where
  new_record_fields :
      (fresh : Text) (now : ℕ) (name : Text) (kind : MechanismKind) (policy : SandboxPolicy)
      (result : CreateResult) (workdir : Text) (made : SandboxRecord)
      → map_err state_failed (
          Files.new_record S.codec S.root fresh now name kind result.runtime_id policy workdir false
            result.proxy_port)
        ≡ ok made
      → (made.name ≡ name) × (made.mechanism ≡ kind) × (made.runtime_id ≡ result.runtime_id)
  unfolding Files.new_record
  new_record_fields fresh now name kind policy result workdir made e =
      elim (Result-cases (map_err policy_io (content_hash S.codec policy))) [
        | inl (hash, p) ↦ (ground arith, ground arith, ground arith)
        | inr (x, p) ↦ absurd (ground arith)
      ]

  -- The record that the last step of a creation inserts, and the world before that step.
  pub record Entered (fresh : Text) (name : Text) (kind : MechanismKind) (result : CreateResult)
      (start behind : W S) (r' : SandboxRecord) : Type 0 where
    pub inserted : SandboxRecord
    pub before : W S
    pub same_index : before.disk.files (index_path S.root) ≡ start.disk.files (index_path S.root)
    pub is_named : inserted.name ≡ name
    pub is_of : inserted.mechanism ≡ kind
    pub runs_as : inserted.runtime_id ≡ result.runtime_id
    pub inserts : (Files.insert S.codec S.root fresh inserted before.disk).0 ≡ ok r'
    pub ends :
        behind ≡ record before { disk = (Files.insert S.codec S.root fresh inserted before.disk).1 }

  pub enter-Entered :
      (fresh : Text) (now : ℕ) (name : Text) (kind : MechanismKind) (policy : SandboxPolicy)
      (result : CreateResult) (w : W S) {r' : SandboxRecord}
      → (enter S fresh now name kind policy result w).0 ≡ ok r'
      → Entered fresh name kind result w (enter S fresh now name kind policy result w).1 r'
  unfolding enter
  enter-Entered fresh now name kind policy result w {r'} e =
      let (workdir, _, to_1) = >>=-reaches (lift (map_err io_failed S.current_dir)) _ w e in
      let e1 = ap (λ x. x.0) (sym to_1) ∙ e in
      let (made, is, to_2) =
        >>=-reaches
          (lift (
            map_err state_failed (
              Files.new_record S.codec S.root fresh now name kind result.runtime_id policy workdir
                false result.proxy_port)))
          _ w e1 in
      let e2 = ap (λ x. x.0) (sym to_2) ∙ e1 in
      let (path, _, to_3) =
        >>=-reaches (on_disk S (Files.save_policy S.codec S.root name policy)) _ w e2 in
      let e3 = ap (λ x. x.0) (sym to_3) ∙ e2 in
      let (named, of, runs) = new_record_fields fresh now name kind policy result workdir made is in
      record {
        inserted = record made { log_path = some (Files.log_path_for S.root name) };
        before = record w { disk = (Files.save_policy S.codec S.root name policy w.disk).1 };
        same_index =
            ((save_policy-index S.codec S.root name policy (w.disk.files (index_path S.root))).at
              w.disk refl).0;
        is_named = named;
        is_of = of;
        runs_as = runs;
        inserts = map_err-eq-ok state_failed _ e3;
        ends = ap (λ x. x.1) (to_1 ∙ to_2 ∙ to_3);
      }

module _ {Out : Type 0} (S : Setting Out) (IsName OwnsPodman OwnsMac : Text → Type 0)
    (R : IsRespectful S IsName OwnsPodman OwnsMac) (fresh : Text) (now : ℕ)
    (given path : Option Text) (o : Overrides) where
  -- The steps of a creation: its policy, its launch and its entry.
  pub record Steps (w behind : W S) (kind : MechanismKind) (res : CreateResult) : Type 0 where
    pub policy : SandboxPolicy
    pub prepared : prepare S.codec S.extents S.os path o w.disk ≡ ok policy
    pub chosen : mechanism_or_auto policy ≡ kind
    pub launched : W S
    pub same_index : launched.disk.files (index_path S.root) ≡ w.disk.files (index_path S.root)
    pub owned : OwnedBy S IsName OwnsPodman OwnsMac kind res.runtime_id
    pub stored_as : SandboxRecord
    pub entered :
        Entered S fresh (or_name given (codes "default")) kind res launched behind stored_as

  pub cmd_create-Steps :
      (w : W S) {kind : MechanismKind} {res : CreateResult}
      → IsName (or_name given (codes "default"))
      → (cmd_create S fresh now given path o w).0 ≡ ok (kind, res)
      → Steps w (cmd_create S fresh now given path o w).1 kind res
  unfolding cmd_create
  cmd_create-Steps w {kind} {res} n e =
      let name = or_name given (codes "default") in
      let (policy, prepared, to_1) =
        >>=-reaches (reading S (prepare S.codec S.extents S.os path o)) _ w e in
      let kind' = mechanism_or_auto policy in
      let e1 = ap (λ x. x.0) (sym to_1) ∙ e in
      let (result, launches, to_2) = >>=-reaches (launch S name kind' policy false []) _ w e1 in
      let w2 = (launch S name kind' policy false [] w).1 in
      let e2 = ap (λ x. x.0) (sym to_2) ∙ e1 in
      let (r', got, to_3) = >>=-reaches (enter S fresh now name kind' policy result) _ w2 e2 in
      let same : ◌≡◌ {A = MechanismKind × CreateResult} (kind', result) (kind, res) =
        ok-injective (ap (λ x. x.0) (sym to_3) ∙ e2) in
      record {
        policy = policy;
        prepared = prepared;
        chosen = ap (λ x. x.0) same;
        launched = w2;
        same_index =
            ((launch-SameIndex S IsName OwnsPodman OwnsMac R w name kind' policy false [] n).at w
              refl).0;
        owned =
            subst (λ x. OwnedBy S IsName OwnsPodman OwnsMac x.0 x.1.runtime_id) same
              (subst (Gives (λ x. OwnedBy S IsName OwnsPodman OwnsMac kind' x.runtime_id)) launches
                ((launch-SameIndex S IsName OwnsPodman OwnsMac R w name kind' policy false [] n).at
                  w refl).1);
        stored_as = r';
        entered =
            subst (λ x. Entered S fresh name kind res w2 x r')
              (sym (ap (λ x. x.1) (to_1 ∙ to_2 ∙ to_3)))
              (subst
                (λ x.
                  Entered S fresh name x.0 x.1 w2 (enter S fresh now name kind' policy result w2).1
                    r')
                same (enter-Entered S fresh now name kind' policy result w2 got));
      }
