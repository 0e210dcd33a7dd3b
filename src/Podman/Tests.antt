-- ===== src/Podman/Tests.antt =====
-- Tests of the Podman backend's arguments, and its theorems at concrete inputs
-- (crates/sandbox-mech-podman/src/lib.rs).
use simple_sandbox_public.Prelude.{◌≡◌, refl, true, some, List, [], ◌∷◌, ◌++◌, Text, text_eq, All}
use simple_sandbox_public.Result.{ok}
use simple_sandbox_public.Text.{codes, trim, starts_with}
use simple_sandbox_public.Text.Decimal.{decimal, parse_uint}
use simple_sandbox_public.Policy.{
  SandboxPolicy, policy_default, NetworkMode, deny_all, allowlist, network_mode_eq,
}
use simple_sandbox_public.Mechanism.{CreateRequest, ExecRequest}
use simple_sandbox_public.Policy.Size.{memory_bytes}
use simple_sandbox_public.Podman.{
  Host, network_flag, command_args, build_run_args, memory_of, run_args, first_options,
  last_options, network_args, read_only_mounts, read_write_mounts, env_args, container_name,
}
use simple_sandbox_public.Podman.Create.{
  create_args, choose_args, build_allowlist_args, exec_args, byte_length, drop_network,
}
use simple_sandbox_public.Podman.Options.{IsOther}
use simple_sandbox_public.Podman.Laws.{create_args_allowlist, create_args_isolated}

abbrev host : Host
host = record {
  exists = λ p. true;
  canonicalize = λ p. some p;
  proxy_port = some (codes "4000");
  show_cpus = λ c. codes "2";
}

abbrev with_mode : NetworkMode → SandboxPolicy
with_mode mode = record policy_default { network = record { mode = mode; endpoints = [] } }

abbrev request : NetworkMode → CreateRequest
request mode = record {
  name = codes "box";
  policy = with_mode mode;
  workdir = codes "/w";
  ephemeral = true;
  command = codes "curl" ∷ codes "--network" ∷ codes "x" ∷ codes "y" ∷ [];
  env = (codes "K", codes "v") ∷ [];
}

abbrev image : Text
image = codes "alpine"

abbrev isolated : List Text
isolated =
    codes "run"
    ∷ codes "--rm"
    ∷ codes "--name"
    ∷ codes "ssbx-box"
    ∷ codes "--cpus=2"
    ∷ codes "--memory=2147483648"
    ∷ codes "--network"
    ∷ codes "none"
    ∷ codes "-v"
    ∷ codes "/w:/workspace:rw"
    ∷ codes "-w"
    ∷ codes "/workspace"
    ∷ codes "--tmpfs"
    ∷ codes "/tmp:rw,size=64m"
    ∷ codes "-e"
    ∷ codes "K=v"
    ∷ image
    ∷ codes "curl"
    ∷ codes "--network"
    ∷ codes "x"
    ∷ codes "y"
    ∷ []

isolated_test : create_args host image (request deny_all) ≡ ok isolated
unfolding create_args build_run_args memory_of memory_bytes trim parse_uint choose_args
    network_mode_eq run_args first_options decimal network_args last_options read_only_mounts
    read_write_mounts text_eq env_args command_args
isolated_test = refl

create_args_isolated_example :
    (before : List Text) × (after : List Text) × (isolated
      ≡ before
        ++ network_flag ∷ codes "none" ∷ (after ++ image ∷ command_args (request deny_all).command))
    × All IsOther before
    × All IsOther after
create_args_isolated_example = create_args_isolated host image (request deny_all) refl isolated_test

-- The command `curl --network x y` has become `curl y`.
abbrev proxied : List Text
proxied =
    codes "run"
    ∷ codes "--add-host"
    ∷ codes "host.docker.internal:host-gateway"
    ∷ codes "--rm"
    ∷ codes "--name"
    ∷ codes "ssbx-box"
    ∷ codes "--cpus=2"
    ∷ codes "--memory=2147483648"
    ∷ codes "-v"
    ∷ codes "/w:/workspace:rw"
    ∷ codes "-w"
    ∷ codes "/workspace"
    ∷ codes "--tmpfs"
    ∷ codes "/tmp:rw,size=64m"
    ∷ codes "-e"
    ∷ codes "K=v"
    ∷ codes "-e"
    ∷ codes "NO_PROXY=localhost,127.0.0.1"
    ∷ codes "-e"
    ∷ codes "http_proxy=http://host.docker.internal:4000"
    ∷ codes "-e"
    ∷ codes "https_proxy=http://host.docker.internal:4000"
    ∷ codes "-e"
    ∷ codes "HTTP_PROXY=http://host.docker.internal:4000"
    ∷ codes "-e"
    ∷ codes "HTTPS_PROXY=http://host.docker.internal:4000"
    ∷ image
    ∷ codes "curl"
    ∷ codes "y"
    ∷ []

proxied_test : create_args host image (request allowlist) ≡ ok proxied
unfolding create_args build_run_args memory_of memory_bytes trim parse_uint choose_args
    network_mode_eq run_args first_options decimal network_args last_options read_only_mounts
    read_write_mounts text_eq env_args command_args build_allowlist_args drop_network
proxied_test = refl

create_args_allowlist_example : All IsOther proxied
create_args_allowlist_example =
    create_args_allowlist host image (request allowlist) refl proxied_test

abbrev exec_request : ExecRequest
exec_request = record {
  name = codes "box";
  runtime_id = codes "c0ffee";
  command = [];
  env = [];
  tty = true;
  cwd = some (codes "/workspace");
}

exec_test :
    exec_args exec_request
    ≡ codes "exec"
      ∷ codes "-it"
      ∷ codes "-w"
      ∷ codes "/workspace"
      ∷ codes "ssbx-box"
      ∷ codes "sh"
      ∷ []
unfolding exec_args env_args starts_with container_name byte_length
exec_test = refl
