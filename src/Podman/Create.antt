-- ===== src/Podman/Create.antt =====
-- The arguments of `create`, with the patches of the mode `allowlist`, and those of `exec`
-- (crates/sandbox-mech-podman/src/lib.rs).
use simple_sandbox_public.Prelude.{
  ℕ, zero, suc, ◌+◌, Bool, true, false, not, ◌||◌, Option, none, some, List, [], ◌∷◌, ◌++◌, Text,
  text_eq, ◌==◌, if◌then◌else◌, leb, ltb,
}
use simple_sandbox_public.Result.{Result, ok, ◌>>=◌}
use simple_sandbox_public.Text.{codes, starts_with}
use simple_sandbox_public.Policy.{allowlist, unrestricted, network_mode_eq}
use simple_sandbox_public.Mechanism.{MechanismError, CreateRequest, ExecRequest}
use simple_sandbox_public.Podman.{
  Host, container_name, network_flag, gateway, env_args, build_run_args,
}

-- The loop that takes `--network` and the argument behind it out; `skip` is its `skip_next`.
unfoldable pub drop_network : Bool → List Text → List Text
drop_network skip [] = []
drop_network true (a ∷ args) = drop_network false args
drop_network false (a ∷ args) =
    let found = a == network_flag in
    let rest = drop_network found args in if found then rest else a ∷ rest

-- `Vec::insert`, for an index within the list.
unfoldable pub insert_at : ℕ → Text → List Text → List Text
insert_at zero a args = a ∷ args
insert_at (suc n) a [] = a ∷ []
insert_at (suc n) a (b ∷ args) = b ∷ insert_at n a args

-- The index of the first argument that is the image, or the number of arguments.
unfoldable pub position : Text → List Text → ℕ
position image [] = 0
position image (a ∷ args) = let rest = position image args in if a == image then 0 else suc rest

-- One option `-e` with its value, at an index.
unfoldable pub insert_env : ℕ → Text → List Text → List Text
unfolding insert_at
insert_env n value args = insert_at (n + 1) value (insert_at n (codes "-e") args)

abbrev pub proxy_url : Text → Text
proxy_url port = codes "http://host.docker.internal:" ++ port

unfoldable pub insert_proxy : Text → Option Text → List Text → List Text
unfolding insert_env position
insert_proxy image none args = args
insert_proxy image (some port) args =
    let n = position image args in
    let with_https = insert_env n (codes "HTTPS_PROXY=" ++ proxy_url port) args in
    let with_http = insert_env n (codes "HTTP_PROXY=" ++ proxy_url port) with_https in
    let with_lower_https = insert_env n (codes "https_proxy=" ++ proxy_url port) with_http in
    let with_lower_http = insert_env n (codes "http_proxy=" ++ proxy_url port) with_lower_https in
    insert_env n (codes "NO_PROXY=localhost,127.0.0.1") with_lower_http

-- The request with the network unrestricted.
abbrev pub unrestricted_request : CreateRequest → CreateRequest
unrestricted_request req = record {
  name = req.name;
  policy = record req.policy {
    network = record { mode = unrestricted; endpoints = req.policy.network.endpoints };
  };
  workdir = req.workdir;
  ephemeral = req.ephemeral;
  command = req.command;
  env = req.env;
}

module _ (H : Host) (image : Text) where
  -- What is done to the arguments of the unrestricted request.
  unfoldable pub patch : List Text → List Text
  unfolding insert_at insert_proxy drop_network
  patch args =
      insert_proxy image H.proxy_port
        (insert_at 2 gateway (insert_at 1 (codes "--add-host") (drop_network false args)))

  unfoldable pub build_allowlist_args :
      CreateRequest → Text → Bool → Result MechanismError (List Text)
  unfolding patch
  build_allowlist_args req name detach = do
    args ← build_run_args H image (unrestricted_request req) name detach
    ok (patch args)

  -- The test of the mode in `create`.
  unfoldable pub choose_args : CreateRequest → List Text → Result MechanismError (List Text)
  choose_args req args =
      if req.policy.network.mode == allowlist
      then build_allowlist_args req req.name (not req.ephemeral)
      else ok args

  -- The arguments that `create` runs the binary with.
  unfoldable pub create_args : CreateRequest → Result MechanismError (List Text)
  create_args req = do
    args ← build_run_args H image req req.name (not req.ephemeral)
    choose_args req args

unfoldable pub workdir_args : Option Text → List Text
workdir_args none = []
workdir_args (some cwd) = codes "-w" ∷ cwd ∷ []

unfoldable pub shell_or : List Text → List Text
shell_or [] = codes "sh" ∷ []
shell_or (c ∷ cs) = c ∷ cs

-- `str::len`, the number of bytes in UTF-8.
unfoldable pub byte_length : Text → ℕ
byte_length [] = 0
byte_length (c ∷ s) =
    (if ltb c 128 then 1 else if ltb c 2048 then 2 else if ltb c 65536 then 3 else 4)
    + byte_length s

-- The container that `exec` addresses.
unfoldable pub container_of : ExecRequest → Text
container_of req =
    if starts_with (codes "ssbx-") req.runtime_id || leb 12 (byte_length req.runtime_id)
    then req.runtime_id
    else container_name req.name

-- The arguments that `exec` runs the binary with.
unfoldable pub exec_args : ExecRequest → List Text
unfolding container_of workdir_args shell_or
exec_args req =
    codes "exec"
    ∷ ((if req.tty then codes "-it" ∷ [] else [])
        ++ (env_args req.env ++ (workdir_args req.cwd ++ container_of req ∷ shell_or req.command)))
