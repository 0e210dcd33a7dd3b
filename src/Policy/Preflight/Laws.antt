-- ===== src/Policy/Preflight/Laws.antt =====
-- `preflight` accepts exactly the valid policies that fit the host, over any lawful extent engine.
use simple_sandbox_public.Prelude.{
  ℕ, ◌≤◌, ◌<◌, ◌≡◌, refl, subst, ◌∙◌, ◌≢◌, ◌↔◌, ◌⊎◌, inl, inr, some, arith, Text, text_eq,
  ne_of_test,
}
use simple_sandbox_public.Prelude.Order.{le_or_lt}
use simple_sandbox_public.Result.{ok, err, >>=-eq-ok}
use simple_sandbox_public.Policy.{preflight, SandboxPolicy}
use simple_sandbox_public.Policy.Size.{memory_bytes, millicores}
use simple_sandbox_public.Policy.Validate.{validate}
use simple_sandbox_public.Policy.Validate.Laws.{IsValid, validate_iff, memory_iff}
use simple_sandbox_public.Policy.Preflight.{
  Extents, IsLawful, HostCapacity, host_name, ram, cpu, bytes, count, host_device, run_preflight,
}

ram-ne-cpu : ram ≢ cpu
unfolding text_eq
ram-ne-cpu = ne_of_test ram cpu refl

cpu-ne-ram : cpu ≢ ram
unfolding text_eq
cpu-ne-ram = ne_of_test cpu ram refl

-- The policy asks of each pool at most what the host has.
pub record Fits (p : SandboxPolicy) (host : HostCapacity) : Type 0 where
  pub memory : (v : ℕ) × (memory_bytes p.resources ≡ ok v) × (v ≤ host.memory_bytes)
  pub cpus : millicores p.resources ≤ host.millicores

module _ (X : Extents) (L : IsLawful X) (host : HostCapacity) where
  abbrev engine : X.Engine
  engine = X.add_device X.new_engine (host_device X host)

  name-host_device : X.name (host_device X host) ≡ host_name
  unfolding host_device
  name-host_device = rw (L.name-add_extent, L.name-add_extent, L.name-new_device)

  free_host : (p : Text) → X.free engine host_name p ≡ X.capacity (host_device X host) p
  free_host p =
      subst (λ d. X.free engine d p ≡ X.capacity (host_device X host) p) name-host_device
        (L.free-add_device X.new_engine (host_device X host) p)

  free_ram : X.free engine host_name ram ≡ some host.memory_bytes
  free_ram =
      free_host ram
      ∙ (unfold host_device in
          L.capacity_ne _ cpu ram host.millicores count cpu-ne-ram
          ∙ L.capacity_self _ ram host.memory_bytes bytes)

  free_cpu : X.free engine host_name cpu ≡ some host.millicores
  free_cpu = free_host cpu ∙ (unfold host_device in L.capacity_self _ cpu host.millicores count)

  module _ (p : SandboxPolicy) (valid : IsValid p) (v : ℕ)
      (need : memory_bytes p.resources ≡ ok v) where
    run_fits :
        v ≤ host.memory_bytes
        → millicores p.resources ≤ host.millicores
        → run_preflight X p host ≡ ok tt
    unfolding run_preflight
    run_fits m c =
        let (e, got, kept) = L.allocate_fits engine host_name ram v _ free_ram m in
        let (e', got', _) =
          L.allocate_fits e host_name cpu (millicores p.resources) _
            (kept cpu ram-ne-cpu ∙ free_cpu) c in
        rw ((validate_iff p).1 valid, need, got, got')

    run_memory_exceeds :
        host.memory_bytes < v → (m : Text) × (run_preflight X p host ≡ err (preflight m))
    unfolding run_preflight
    run_memory_exceeds over =
        let (m, refused) = L.allocate_exceeds engine host_name ram v _ free_ram over in
        (m, rw ((validate_iff p).1 valid, need, refused))

    run_cpus_exceed :
        v ≤ host.memory_bytes
        → host.millicores < millicores p.resources
        → (m : Text) × (run_preflight X p host ≡ err (preflight m))
    unfolding run_preflight
    run_cpus_exceed fits over =
        let (e, got, kept) = L.allocate_fits engine host_name ram v _ free_ram fits in
        let (m, refused) =
          L.allocate_exceeds e host_name cpu (millicores p.resources) _
            (kept cpu ram-ne-cpu ∙ free_cpu) over in
        (m, rw ((validate_iff p).1 valid, need, got, refused))

    too_much : host.memory_bytes < v → ¬ Fits p host
    too_much over f = let same : f.memory.0 ≡ v = cc f.memory.1 in omega arith

    run_cases :
        ((v ≤ host.memory_bytes)
          × (millicores p.resources ≤ host.millicores)
          × (run_preflight X p host ≡ ok tt))
        ⊎ (¬ Fits p host × ((m : Text) × (run_preflight X p host ≡ err (preflight m))))
    run_cases = elim (le_or_lt v host.memory_bytes) [
      | inr over ↦ inr (too_much over, run_memory_exceeds over)
      | inl fits ↦ elim (le_or_lt (millicores p.resources) host.millicores) [
        | inl fits' ↦ inl (fits, fits', run_fits fits fits')
        | inr over ↦ inr (λ f. omega (arith, f.cpus), run_cpus_exceed fits over)
      ]
    ]

module _ (X : Extents) (L : IsLawful X) (host : HostCapacity) (p : SandboxPolicy) where
  valid_cases :
      IsValid p
      → (Fits p host × (run_preflight X p host ≡ ok tt))
        ⊎ (¬ Fits p host × ((m : Text) × (run_preflight X p host ≡ err (preflight m))))
  valid_cases valid =
      let (v, size, fits) = valid.memory in
      let need = (memory_iff p v).1 (size, fits) in
      elim (run_cases X L host p valid v need) [
        | inl (m, c, e) ↦ inl (record { memory = (v, need, m); cpus = c }, e)
        | inr (n, e) ↦ inr (n, e)
      ]

  run_preflight-IsValid : run_preflight X p host ≡ ok tt → IsValid p
  unfolding run_preflight
  run_preflight-IsValid h = (validate_iff p).0 (let (_, e, _) = >>=-eq-ok (validate p) _ h in e)

  run_preflight-Fits : run_preflight X p host ≡ ok tt → Fits p host
  run_preflight-Fits h = elim (valid_cases (run_preflight-IsValid h)) [
    | inl (f, _) ↦ f
    | inr (_, (m, e)) ↦ cc
  ]

  -- Over a lawful extent engine, preflight succeeds exactly on the valid policies whose memory in
  -- bytes and whose millicores are at most what the host has.
  pub preflight_iff : (run_preflight X p host ≡ ok tt) ↔ (IsValid p × Fits p host)
  preflight_iff = (
    λ h. (run_preflight-IsValid h, run_preflight-Fits h),
    λ (valid, f). elim (valid_cases valid) [ inl (_, e) ↦ e | inr (n, _) ↦ absurd (n f) ],
  )

  -- Over a lawful extent engine, a valid policy that asks more than the host has, of memory or of
  -- CPU, is refused with a `Preflight` error.
  pub preflight_refuses :
      IsValid p → ¬ Fits p host → (m : Text) × (run_preflight X p host ≡ err (preflight m))
  preflight_refuses valid n = elim (valid_cases valid) [
    | inl (f, _) ↦ absurd (n f)
    | inr (_, e) ↦ e
  ]
