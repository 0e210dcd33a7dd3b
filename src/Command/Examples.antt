-- ===== src/Command/Examples.antt =====
-- A small world for the tests: documents, a host with a macOS backend, and a container engine that
-- knows one container (crates/ssbx/src/main.rs, crates/sandbox-mech-mac/src/lib.rs).
use simple_sandbox_public.Prelude.{
  ℕ, ◌≡◌, refl, ◌≢◌, true, none, some, List, [], Text, text_eq, ◌==◌, if◌then◌else◌, arith,
}
use simple_sandbox_public.Result.{Result, ok, err}
use simple_sandbox_public.Exec.{Exec, pure}
use simple_sandbox_public.Text.{codes}
use simple_sandbox_public.FilePath.{is_absolute, ends_with_separator, join}
use simple_sandbox_public.FilePath.Parent.{IsPlainName}
use simple_sandbox_public.Policy.{MechanismKind, podman, SandboxPolicy}
use simple_sandbox_public.Policy.Mechanism.{macos}
use simple_sandbox_public.Policy.Examples.{extents}
use simple_sandbox_public.Codec.{Codec, IsLawful}
use simple_sandbox_public.Mechanism.{World, ExitStatus, Mechanism, Leaves, default_logs}
use simple_sandbox_public.Store.{SandboxState, state_default}
use simple_sandbox_public.Store.Invariant.{state_default-IsWellFormed}
use simple_sandbox_public.Store.Files.{index_path}
use simple_sandbox_public.Store.Files.Soundness.{IsKept}
use simple_sandbox_public.Seatbelt.{Host, Child}
use simple_sandbox_public.Seatbelt.Instances.{Texts}
use simple_sandbox_public.Seatbelt.Instances
use simple_sandbox_public.Seatbelt.Removal.{Owns}
use simple_sandbox_public.Seatbelt.Safety.{mechanism-Leaves}
use simple_sandbox_public.Seatbelt.Safety as SeatbeltSafety
use simple_sandbox_public.Command.Program.{Outside, IsApart}
use simple_sandbox_public.Command.Sandboxes.{Setting, W}
use simple_sandbox_public.Command.Interface.{IsRespectful}

-- Files that hold what was serialised, or a text.
pub data Document : Type 0 where
  index_text : SandboxState → Document
  policy_text : SandboxPolicy → Document
  plain_text : Text → Document

abbrev read_index : Document → Result Text SandboxState
read_index (index_text st) = ok st
read_index (policy_text p) = err (codes "no index")
read_index (plain_text t) = err (codes "no index")

abbrev read_policy : Document → Result Text SandboxPolicy
read_policy (index_text st) = err (codes "no policy")
read_policy (policy_text p) = ok p
read_policy (plain_text t) = err (codes "no policy")

abbrev plain : Document → Text
plain (index_text st) = []
plain (policy_text p) = []
plain (plain_text t) = t

abbrev pub documents : Codec
documents = record {
  Doc = Document;
  to_json = λ st. ok (index_text st);
  from_json = read_index;
  to_yaml = λ p. ok (policy_text p);
  from_yaml = read_policy;
  sha256_hex = λ d. codes "hash";
}

pub documents-IsLawful : IsLawful documents
documents-IsLawful = record { from_json-to_json = λ st d e. cc; from_yaml-to_yaml = λ p d e. cc }

abbrev pub texts : Texts Document
texts = record { write_text = plain_text; read_text = plain; read_text-write_text = λ t. refl }

abbrev pub root : Text
root = codes "/home"

abbrev pub temp : Text
temp = codes "/tmp/p"

abbrev pub host : Host
host = record {
  os = macos;
  os_name = codes "macos";
  exists = λ p. true;
  canonicalize = λ p. none;
  proxy_port = none;
  config_dir = none;
  temp_file = ok temp;
}

-- Every child ends with the exit code 7.
abbrev pub run_child : Child → Exec (World Document (Unit {0})) Text ExitStatus
run_child c = pure (some 7)

index-ne-temp : index_path root ≢ temp
unfolding index_path join is_absolute ends_with_separator
index-ne-temp e = ground arith

pub host-IsApart : SeatbeltSafety.IsApart documents texts host run_child root
host-IsApart = record {
  child_leaves = λ c w. refl;
  temp_apart = λ path e. let same : temp ≡ path = cc e in rw (← same) index-ne-temp;
}

-- The container engine.
abbrev engine : Mechanism (World Document (Unit {0}))
engine = record {
  kind = podman;
  name = codes "podman";
  doctor = λ w. [];
  create = λ req. pure (record {
    name = req.name;
    mechanism = podman;
    runtime_id = codes "c0ffee";
    proxy_port = none;
    log_path = none;
    exit_code = none;
  });
  exec = λ req. pure (some 0);
  remove = λ id. pure tt;
  logs = λ id tail. default_logs id tail;
}

engine-Leaves : Leaves (index_path root) IsPlainName (λ id. id ≡ codes "c0ffee") engine
unfolding default_logs
engine-Leaves = record {
  create_leaves = λ r w n. (refl, refl);
  exec_leaves = λ r w o. refl;
  remove_leaves = λ id w o. refl;
  logs_leaves = λ id tail w o. refl;
}

abbrev pub setting : Setting (Unit {0})
setting = record {
  codec = documents;
  root = root;
  os = macos;
  extents = extents;
  buffers = record { Buffer = List ℕ; from_bytes = λ b. ok b; as_slice = λ b. ok b };
  process = record {
    var = λ n. none;
    read_file = λ p. err (codes "missing");
    utf8_message = λ b. codes "invalid";
  };
  current_dir = ok (codes "/work");
  proxy_port = none;
  bound = ok 8080;
  backends = record {
    podman_mechanism = λ port. engine;
    mac_mechanism = λ port dir.
        Instances.mechanism documents texts (record host { proxy_port = port }) run_child
          (some dir);
    ensure_image = λ w. w;
  };
}

-- The runtime identifiers of the engine.
abbrev pub Containers : Text → Type 0
Containers id = id ≡ codes "c0ffee"

pub setting-IsRespectful : IsRespectful setting IsPlainName Containers (Owns root)
setting-IsRespectful = record {
  lawful = documents-IsLawful;
  podman_leaves = λ port. engine-Leaves;
  mac_leaves = λ port.
      mechanism-Leaves documents texts (record host { proxy_port = port }) run_child root
        (record {
          child_leaves = λ c w. refl;
          temp_apart = λ path e. host-IsApart.temp_apart path e;
        });
  image_leaves = λ w. refl;
}

-- A disk with an empty index.
abbrev pub new_world : W setting
new_world = record {
  disk = record {
    files = λ p. if p == index_path root then some (index_text state_default) else none;
    writable = λ p. true;
    directories = [];
  };
  outside = tt;
}

pub new_world-IsKept : (G : MechanismKind → Text → Type 0) → IsKept documents root G new_world.disk
unfolding text_eq index_path join is_absolute ends_with_separator
new_world-IsKept G = record {
  state = state_default;
  holds = record { text = index_text state_default; there = refl; reads = refl };
  well_formed = state_default-IsWellFormed;
  owned = tt;
}

-- The repository's backends on a machine where every process prints nothing and ends well.
abbrev pub outside : Outside documents (Unit {0})
outside = record {
  podman_host = record {
    exists = λ p. true;
    canonicalize = λ p. some p;
    proxy_port = none;
    show_cpus = λ c. codes "2";
  };
  machine = record {
    binary = none;
    which = λ name. some name;
    arch = codes "aarch64";
    output = λ bin args. pure (record { code = some 0; stdout = []; stderr = [] });
    status = λ bin args. pure (some 0);
  };
  mac_host = host;
  texts = texts;
  run_child = run_child;
}

pub outside-IsApart : IsApart documents outside root
outside-IsApart = record {
  binary_apart = record { output_leaves = λ bin args w. refl; status_leaves = λ bin args w. refl };
  child_leaves = λ c w. refl;
  temp_apart = λ path e. host-IsApart.temp_apart path e;
}

pub a-IsPlainName : IsPlainName (codes "a")
a-IsPlainName = record {
  nonempty = λ e. cc e;
  no_separator = ground arith;
  not_here = λ e. ground arith;
  not_parent = λ e. ground arith;
}
