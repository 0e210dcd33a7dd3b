-- ===== src/Store/Files.antt =====
-- The methods of `Store` on the disk (crates/sandbox-core/src/state.rs). `root` is the store's
-- directory.
pub mod Laws
pub mod Soundness
pub mod Opening
pub mod Reach
pub mod Policies
pub mod Entry
pub mod Withdrawal
use simple_sandbox_public.Prelude.{
  ℕ, ◌≡◌, Bool, Option, none, some, List, [], ◌∷◌, ◌++◌, Text, if◌then◌else◌,
}
use simple_sandbox_public.Result.{Result, ok, err, map_err, ◌>>=◌ as ◌>>>=◌}
use simple_sandbox_public.Exec.{Exec, ◌>>=◌, ◌>>◌, pure, lift, map_error}
use simple_sandbox_public.Text.{codes}
use simple_sandbox_public.FilePath.{join}
use simple_sandbox_public.Disk.{Disk, IoError, read, write, remove_file, create_dir_all, exists}
use simple_sandbox_public.Policy.{PolicyError, policy_error_text, SandboxPolicy, MechanismKind}
use simple_sandbox_public.Codec.{Codec, parse_yaml, to_yaml, content_hash}
use simple_sandbox_public.Store.{StateError, io, json, SandboxRecord, SandboxState, state_default}
use simple_sandbox_public.Store.Index

-- `root.join("index.json")`
unfoldable pub index_path : Text → Text
index_path root = join root (codes "index.json")

-- `root.join("policies").join(format!("{name}.yaml"))`
unfoldable pub policy_path : Text → Text → Text
policy_path root name = join (join root (codes "policies")) (name ++ codes ".yaml")

-- `log_path_for`
unfoldable pub log_path_for : Text → Text → Text
log_path_for root name = join (join root (codes "logs")) (name ++ codes ".log")

-- How the methods report an error of the policy.
abbrev pub policy_io : PolicyError → StateError
policy_io e = io (policy_error_text e)

module _ (C : Codec) (root : Text) where
  abbrev pub Store : Type 0 → Type 0
  Store A = Exec (Disk C.Doc) StateError A

  unfoldable pub load_index : Store SandboxState
  load_index = do
    text ← map_error io (read (index_path root))
    lift (map_err json (C.from_json text))

  unfoldable pub save_index : SandboxState → Store (Unit {0})
  save_index state = do
    text ← lift (map_err json (C.to_json state))
    map_error io (write (index_path root) text)

  init_index : Store (Unit {0})
  init_index d = if exists (index_path root) d then (ok tt, d) else save_index state_default d

  -- `Store::open`
  unfoldable pub open_store : Store (Unit {0})
  unfolding init_index
  open_store = do
    map_error io (create_dir_all root)
    map_error io (create_dir_all (join root (codes "sandboxes")))
    map_error io (create_dir_all (join root (codes "logs")))
    map_error io (create_dir_all (join root (codes "policies")))
    init_index

  unfoldable pub list : Store (List SandboxRecord)
  unfolding load_index
  list = do state ← load_index; pure state.sandboxes

  unfoldable pub get : Text → Store SandboxRecord
  unfolding load_index
  get name = do state ← load_index; lift (Index.get name state)

  unfoldable pub get_or_last : Option Text → Store SandboxRecord
  get_or_last name = do state ← load_index; lift (Index.get_or_last name state)

  -- `fresh` is what `Uuid::new_v4` gives.
  unfoldable pub insert : Text → SandboxRecord → Store SandboxRecord
  insert fresh record' = do
    state ← load_index
    (stored, state') ← lift (Index.insert fresh record' state)
    save_index state'
    pure stored

  unfoldable pub save_policy : Text → SandboxPolicy → Store Text
  save_policy name policy = do
    text ← lift (map_err policy_io (to_yaml C policy))
    map_error io (write (policy_path root name) text)
    pure (policy_path root name)

  unfoldable pub load_policy : Text → Store SandboxPolicy
  load_policy name = do
    text ← map_error io (read (policy_path root name))
    lift (map_err policy_io (parse_yaml C text))

  unfoldable pub update_policy : Text → SandboxPolicy → Store (Unit {0})
  update_policy name policy = do
    hash ← lift (map_err policy_io (content_hash C policy))
    save_policy name policy
    state ← load_index
    state' ← lift (Index.set_hash name hash state)
    save_index state'

  -- `let _ = fs::remove_file(…)`
  forget_policy : Text → Store (Unit {0})
  forget_policy name d = (ok tt, remove_file (policy_path root name) d)

  unfoldable pub remove : Text → Store SandboxRecord
  unfolding forget_policy
  remove name = do
    state ← load_index
    (rec, state') ← lift (Index.remove name state)
    save_index state'
    forget_policy rec.name
    pure rec

  unfoldable pub touch_last_used : Text → Store (Unit {0})
  touch_last_used name = do state ← load_index; save_index (Index.touch name state)

  -- The first two steps of `cmd_exec`: the sandbox that is meant becomes the last used one.
  unfoldable pub use_sandbox : Option Text → Store SandboxRecord
  use_sandbox name = do rec ← get_or_last name; touch_last_used rec.name; pure rec

  -- `Store::new_record`, at the time `now`.
  unfoldable pub new_record :
      (fresh : Text) (now : ℕ) (name : Text)
      → MechanismKind
      → (runtime_id : Text) → SandboxPolicy
      → (workdir : Text) → (ephemeral : Bool) → (proxy_port : Option ℕ)
      → Result StateError SandboxRecord
  new_record fresh now name mechanism runtime_id policy workdir ephemeral proxy_port =
      map_err policy_io (content_hash C policy) >>>= λ hash. ok (record {
        id = fresh;
        name = name;
        mechanism = mechanism;
        runtime_id = runtime_id;
        policy_hash = hash;
        workdir = workdir;
        created_at = now;
        proxy_port = proxy_port;
        log_path = none;
        ephemeral = ephemeral;
      })

-- The changes that the program makes to an open store.
pub data Change : Type 0 where
  put : Text → SandboxRecord → Change
  drop : Text → Change
  write_policy : Text → SandboxPolicy → Change
  change_policy : Text → SandboxPolicy → Change
  using : Option Text → Change

module _ (C : Codec) (root : Text) where
  -- One change, whether it succeeds or fails.
  unfoldable pub apply : Change → Disk C.Doc → Disk C.Doc
  apply (put fresh r) d = (insert C root fresh r d).1
  apply (drop name) d = (remove C root name d).1
  apply (write_policy name p) d = (save_policy C root name p d).1
  apply (change_policy name p) d = (update_policy C root name p d).1
  apply (using name) d = (use_sandbox C root name d).1

  unfoldable pub apply_all : List Change → Disk C.Doc → Disk C.Doc
  unfolding apply
  apply_all [] d = d
  apply_all (c ∷ cs) d = apply_all cs (apply c d)
