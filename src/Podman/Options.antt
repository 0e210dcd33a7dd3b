-- ===== src/Podman/Options.antt =====
-- Which arguments of the Podman backend can be `--network`
-- (crates/sandbox-mech-podman/src/lib.rs).
use simple_sandbox_public.Prelude.{
  ℕ, zero, suc, ◌+◌, sym, subst, ◌≢◌, inl, inr, Bool, true, false, ◌||◌, Option, none, some, List,
  [], ◌∷◌, ◌++◌, Text, text_eq, ◌==◌, if◌then◌else◌, arith, All, All-append, Bool-cases,
  Option-cases,
}
use simple_sandbox_public.Text.{codes, starts_with}
use simple_sandbox_public.FilePath.{is_absolute, join, file_name}
use simple_sandbox_public.Text.Laws.{Lacks, Lacks-middle}
use simple_sandbox_public.Policy.{NetworkMode, allowlist, network_mode_eq, FilesystemPolicy}
use simple_sandbox_public.Mechanism.{CreateRequest}
use simple_sandbox_public.Podman.{
  Host, container_name, network_flag, gateway, env_args, mount_of, mount_spec, volume,
  read_only_mounts, read_write_mounts, workspace_args, add_host, gateway_args, first_options,
  last_options,
}
use simple_sandbox_public.Podman.Create.{drop_network, insert_at, insert_env, insert_proxy, patch}

-- No option `--network`.
abbrev pub IsOther : Text → Type 0
IsOther a = a ≢ network_flag

flag-Lacks_colon : Lacks b':' network_flag
flag-Lacks_colon = ground arith

flag-Lacks_equals : Lacks b'=' network_flag
flag-Lacks_equals = ground arith

middle-IsOther : (c : ℕ) (s t : Text) → Lacks c network_flag → IsOther (s ++ c ∷ t)
middle-IsOther c s t h e = Lacks-middle c s t (subst (Lacks c) (sym e) h)

head-IsOther : (c : ℕ) (s : Text) → c ≢ b'-' → IsOther (c ∷ s)
head-IsOther c s h e = ground arith

env_args-IsOther : (env : List (Text × Text)) → All IsOther (env_args env)
unfolding env_args
env_args-IsOther [] = tt
env_args-IsOther ((k, v) ∷ rest) =
    ((λ e. cc), (middle-IsOther b'=' k v flag-Lacks_equals, env_args-IsOther rest))

drop_network-IsOther : (skip : Bool) (args : List Text) → All IsOther (drop_network skip args)
unfolding drop_network
drop_network-IsOther skip [] = tt
drop_network-IsOther true (a ∷ args) = drop_network-IsOther false args
drop_network-IsOther false (a ∷ args) = elim (Bool-cases (a == network_flag)) [
  | inl e ↦ rw e (drop_network-IsOther true args)
  | inr e ↦ rw e ((λ p. ground arith), drop_network-IsOther false args)
]

insert_at-IsOther :
    (n : ℕ) (a : Text) (args : List Text)
    → IsOther a
    → All IsOther args
    → All IsOther (insert_at n a args)
unfolding insert_at
insert_at-IsOther zero a args h hs = (h, hs)
insert_at-IsOther (suc n) a [] h hs = (h, tt)
insert_at-IsOther (suc n) a (b ∷ args) h hs = (hs.0, insert_at-IsOther n a args h hs.1)

insert_env-IsOther :
    (n : ℕ) (s t : Text) (args : List Text)
    → All IsOther args
    → All IsOther (insert_env n (s ++ b'=' ∷ t) args)
unfolding insert_env
insert_env-IsOther n s t args h =
    insert_at-IsOther (n + 1) _ _ (middle-IsOther b'=' s t flag-Lacks_equals)
      (insert_at-IsOther n _ args (λ e. cc) h)

insert_proxy-IsOther :
    (image : Text) (port : Option Text) (args : List Text)
    → All IsOther args
    → All IsOther (insert_proxy image port args)
unfolding insert_proxy
insert_proxy-IsOther image none args h = h
insert_proxy-IsOther image (some port) args h = insert_env-IsOther _ (codes "NO_PROXY") _ _ (
    insert_env-IsOther _ (codes "http_proxy") _ _ (
      insert_env-IsOther _ (codes "https_proxy") _ _ (
        insert_env-IsOther _ (codes "HTTP_PROXY") _ _
          (insert_env-IsOther _ (codes "HTTPS_PROXY") _ args h))))

workspace_args-IsOther :
    (H : Host) (fs : FilesystemPolicy) (workdir : Text) → All IsOther (workspace_args H fs workdir)
unfolding workspace_args
workspace_args-IsOther H fs workdir = elim (Bool-cases fs.workdir) [
  | inr e ↦ rw e tt
  | inl e ↦ rw e (
    (λ p. cc),
    (middle-IsOther b':' _ (codes "/workspace:rw") flag-Lacks_colon, ((λ p. cc), ((λ p. cc), tt))),
  )
]

mount_of-IsOther :
    (H : Host) (host : Text) (read_only : Bool) → All IsOther (volume (mount_of H host read_only))
unfolding mount_of volume
mount_of-IsOther H host read_only = elim (Bool-cases (H.exists host)) [
  | inr e ↦ rw e tt
  | inl e ↦ elim (Option-cases (file_name host)) [
    | inl f ↦ rw (e, f) tt
    | inr (name, f) ↦ rw (e, f) ((λ p. cc), (middle-IsOther b':' host _ flag-Lacks_colon, tt))
  ]
]

mount_spec-IsOther :
    (H : Host) (p workdir : Text) (read_only : Bool)
    → All IsOther (volume (mount_spec H p workdir read_only))
unfolding mount_spec
mount_spec-IsOther H p workdir read_only = elim (Bool-cases (starts_with (codes "/workspace") p)) [
  | inl e ↦ rw e (unfold volume in tt)
  | inr e ↦ elim (Bool-cases (is_absolute p)) [
    | inr f ↦ rw (e, f) (mount_of-IsOther H (join workdir p) read_only)
    | inl f ↦ elim (Bool-cases (H.exists p)) [
      | inl g ↦ rw (e, f, g) (mount_of-IsOther H p read_only)
      | inr g ↦ rw (e, f, g) (unfold volume in tt)
    ]
  ]
]

read_only_mounts-IsOther :
    (H : Host) (workdir : Text) (ps : List Text) → All IsOther (read_only_mounts H workdir ps)
unfolding read_only_mounts
read_only_mounts-IsOther H workdir [] = tt
read_only_mounts-IsOther H workdir (p ∷ ps) =
    All-append IsOther _ _ (mount_spec-IsOther H p workdir true)
      (read_only_mounts-IsOther H workdir ps)

read_write_mounts-IsOther :
    (H : Host) (workdir : Text) (ps : List Text) → All IsOther (read_write_mounts H workdir ps)
unfolding read_write_mounts
read_write_mounts-IsOther H workdir [] = tt
read_write_mounts-IsOther H workdir (p ∷ ps) =
    let rest = read_write_mounts-IsOther H workdir ps in
    elim (Bool-cases (p == codes "/workspace" || p == codes "/tmp")) [
      | inl e ↦ rw e rest
      | inr e ↦ rw e (All-append IsOther _ _ (mount_spec-IsOther H p workdir false) rest)
    ]

gateway_args-IsOther : (H : Host) (mode : NetworkMode) → All IsOther (gateway_args H mode)
unfolding gateway_args add_host
gateway_args-IsOther H mode = elim (Bool-cases (mode == allowlist)) [
  | inr e ↦ rw e tt
  | inl e ↦ elim (Option-cases H.proxy_port) [
    | inl f ↦ rw (e, f) tt
    | inr (port, f) ↦ rw (e, f) ((λ p. cc), ((λ p. cc), tt))
  ]
]

pub last_options-IsOther : (H : Host) (req : CreateRequest) → All IsOther (last_options H req)
unfolding last_options
last_options-IsOther H req =
    All-append IsOther _ _ (workspace_args-IsOther H req.policy.filesystem req.workdir) (
      All-append IsOther _ _
        (read_only_mounts-IsOther H req.workdir req.policy.filesystem.read_only)
        (All-append IsOther _ _
          (read_write_mounts-IsOther H req.workdir req.policy.filesystem.read_write)
          (
            (λ p. cc),
            (
              (λ p. cc),
              All-append IsOther _ _ (env_args-IsOther req.env)
                  (gateway_args-IsOther H req.policy.network.mode),
            ),
          )))

run_or_remove-IsOther : (detach : Bool) → IsOther (if detach then codes "-d" else codes "--rm")
run_or_remove-IsOther true e = cc
run_or_remove-IsOther false e = cc

pub first_options-IsOther :
    (H : Host) (req : CreateRequest) (name : Text) (detach : Bool) (mem : ℕ)
    → All IsOther (first_options H req name detach mem)
unfolding first_options container_name
first_options-IsOther H req name detach mem = (
  (λ p. cc),
  (
    run_or_remove-IsOther detach,
    (
      (λ p. cc),
      (
        head-IsOther b's' _ (omega arith),
        (
          middle-IsOther b'=' (codes "--cpus") _ flag-Lacks_equals,
          (middle-IsOther b'=' (codes "--memory") _ flag-Lacks_equals, tt),
        ),
      ),
    ),
  ),
)

pub patch-IsOther : (H : Host) (image : Text) (args : List Text) → All IsOther (patch H image args)
unfolding patch
patch-IsOther H image args = insert_proxy-IsOther image H.proxy_port _ (
    insert_at-IsOther 2 gateway _ (λ p. cc)
      (insert_at-IsOther 1 _ _ (λ p. cc) (drop_network-IsOther false args)))
