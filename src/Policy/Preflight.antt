-- ===== src/Policy/Preflight.antt =====
-- `preflight` and `HostCapacity` (crates/sandbox-policy/src/lib.rs), over the extent engine of
-- `limited_core`, which the repository does not hold.
pub mod Laws
use simple_sandbox_public.Prelude.{ℕ, ◌-◌, ◌*◌, ◌≤◌, ◌<◌, ◌≡◌, ◌≢◌, Option, none, some, Text}
use simple_sandbox_public.Result.{Result, ok, err, ◌>>=◌, map_err}
use simple_sandbox_public.Text.{codes}
use simple_sandbox_public.Policy.{PolicyError, preflight, SandboxPolicy}
use simple_sandbox_public.Policy.Size.{memory_bytes, millicores}
use simple_sandbox_public.Policy.Validate.{validate}

pub data ExtentType : Type 0 where
  bytes count : ExtentType

-- `ExtentPool`, `Device` and `ExtentEngine`. `capacity` and `free` are what their state shows: the
-- size of a device's pool, and what an engine's pool has left.
pub record Extents : Type 1 where
  pub Pool : Type 0
  pub Device : Type 0
  pub Engine : Type 0
  pub new_pool : Text → ℕ → ExtentType → Pool
  pub new_device : Text → Device
  pub add_extent : Device → Pool → Device
  pub new_engine : Engine
  pub add_device : Engine → Device → Engine
  pub allocate : Engine → Text → Text → ℕ → Result Text Engine
  pub name : Device → Text
  pub capacity : Device → Text → Option ℕ
  pub free : Engine → Text → Text → Option ℕ

-- What is relied on: a device has the pools that were added, an engine the devices, and an
-- allocation takes from its own pool what is asked, or fails if that is more than is left.
pub record IsLawful (X : Extents) : Type 0 where
  pub name-new_device : (d : Text) → X.name (X.new_device d) ≡ d
  pub name-add_extent : (v : X.Device) (p : X.Pool) → X.name (X.add_extent v p) ≡ X.name v
  pub capacity_self :
      (v : X.Device) (p : Text) (n : ℕ) (t : ExtentType)
      → X.capacity (X.add_extent v (X.new_pool p n t)) p ≡ some n
  pub capacity_ne :
      (v : X.Device) (p q : Text) (n : ℕ) (t : ExtentType)
      → p ≢ q
      → X.capacity (X.add_extent v (X.new_pool p n t)) q ≡ X.capacity v q
  pub free-add_device :
      (e : X.Engine) (v : X.Device) (p : Text)
      → X.free (X.add_device e v) (X.name v) p ≡ X.capacity v p
  pub allocate_fits :
      (e : X.Engine) (d p : Text) (n c : ℕ)
      → X.free e d p ≡ some c
      → n ≤ c
      → (e' : X.Engine) × (X.allocate e d p n ≡ ok e')
        × ((q : Text) → p ≢ q → X.free e' d q ≡ X.free e d q)
  pub allocate_exceeds :
      (e : X.Engine) (d p : Text) (n c : ℕ)
      → X.free e d p ≡ some c
      → c < n
      → (m : Text) × (X.allocate e d p n ≡ err m)

pub record HostCapacity : Type 0 where
  pub memory_bytes : ℕ
  pub millicores : ℕ

-- `HostCapacity::default`
abbrev pub host_default : HostCapacity
host_default = record { memory_bytes = 8 * 1024 * 1024 * 1024; millicores = 8000 }

abbrev pub host_name : Text
host_name = codes "host"

abbrev pub ram : Text
ram = codes "RAM"

abbrev pub cpu : Text
cpu = codes "CPU"

module _ (X : Extents) where
  -- The device with its two pools.
  unfoldable pub host_device : HostCapacity → X.Device
  host_device host =
      X.add_extent (X.add_extent (X.new_device host_name) (X.new_pool ram host.memory_bytes bytes))
        (X.new_pool cpu host.millicores count)

  unfoldable pub run_preflight : SandboxPolicy → HostCapacity → Result PolicyError (Unit {0})
  unfolding host_device
  run_preflight p host = do
    _ ← validate p
    let engine = X.add_device X.new_engine (host_device host)
    need_mem ← memory_bytes p.resources
    engine' ← map_err preflight (X.allocate engine host_name ram need_mem)
    _ ← map_err preflight (X.allocate engine' host_name cpu (millicores p.resources))
    ok tt
