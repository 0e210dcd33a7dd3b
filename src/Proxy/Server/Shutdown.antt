-- ===== src/Proxy/Server/Shutdown.antt =====
-- The accept loop ends behind its handle (crates/sandbox-proxy/src/lib.rs).
use simple_sandbox_public.Prelude.{
  ℕ, zero, suc, ◌≤◌, ◌≡◌, refl, ap, ◌∙◌, ◌⊎◌, inl, inr, Bool, true, false, Option, none, some, List,
  [], ◌∷◌, Text, arith, Bool-cases, ◌||◌, if◌then◌else◌, subst,
}
use simple_sandbox_public.Prelude.Order.{le_or_lt}
use simple_sandbox_public.Result.{Result, ok, >>=-eq-ok}
use simple_sandbox_public.Proxy.Server.{
  Accepted, connection, accept_failed, Server, Running, Round, start_allowlist_proxy, take_sender,
  end_handle, take_accepted, select, hear, accept_round, serve, ProxyHandle,
}

-- The sender is gone only once it has sent.
abbrev Heard : Running → Type 0
Heard p = (p.handle.sender ≡ true) ⊎ (p.server.signalled ≡ true)

-- The loop is told to end, or has ended.
abbrev IsTold : Server → Type 0
IsTold s = (s.is_listening ≡ false) ⊎ (s.signalled ≡ true)

either_true : (a b : Bool) → (b ≡ true) ⊎ (a ≡ true) → (a || b) ≡ true
either_true true b h = refl
either_true false b (inl h) = h
either_true false b (inr h) = cc h

end_handle-sender : (called : Bool) (h : ProxyHandle) → (end_handle called h).0 ≡ h.sender
unfolding end_handle take_sender
end_handle-sender false h = refl
end_handle-sender true h = elim (Bool-cases h.sender) [ inl e ↦ rw e refl | inr e ↦ rw e refl ]

-- A handle that ends sends the shutdown, however it ends.
hear-signals :
    (called : Bool) (p : Running) → Heard p → (hear (some called) p).server.signalled ≡ true
unfolding hear
hear-signals called p (inl h) =
    either_true p.server.signalled _ (inl (end_handle-sender called p.handle ∙ h))
hear-signals called p (inr h) = either_true p.server.signalled _ (inr h)

hear-Heard : (e : Option Bool) (p : Running) → Heard p → Heard (hear e p)
hear-Heard none p h = unfold hear in h
hear-Heard (some called) p h = inr (hear-signals called p h)

hear-IsTold : (e : Option Bool) (p : Running) → IsTold p.server → IsTold (hear e p).server
unfolding hear
hear-IsTold none p h = h
hear-IsTold (some called) p (inl h) = inl h
hear-IsTold (some called) p (inr h) = inr (either_true p.server.signalled _ (inr h))

hear-server :
    (e : Option Bool) (p : Running)
    → ((hear e p).server.is_listening ≡ p.server.is_listening)
      × ((hear e p).server.clients ≡ p.server.clients)
unfolding hear
hear-server none p = (refl, refl)
hear-server (some called) p = (refl, refl)

take_accepted-signalled :
    (l : List Accepted) (s : Server) → (take_accepted l s).signalled ≡ s.signalled
unfolding take_accepted
take_accepted-signalled [] s = refl
take_accepted-signalled (connection c ∷ l) s = refl
take_accepted-signalled (accept_failed ∷ l) s = refl

select-signalled : (first : Bool) (s : Server) → (select first s).signalled ≡ s.signalled
unfolding select
select-signalled first s = ground (arith, take_accepted-signalled s.backlog s)

select_shutdown : (s : Server) → s.signalled ≡ true → (select true s).is_listening ≡ false
unfolding select
select_shutdown s e = rw e refl

-- The loop's body on what it has heard.
abbrev turn : Bool → Server → Server
turn first s = if s.is_listening then select first s else s

turn_stopped : (first : Bool) (s : Server) → s.is_listening ≡ false → turn first s ≡ s
turn_stopped first s e = ap (λ b. if b then select first s else s) e

turn_running : (first : Bool) (s : Server) → s.is_listening ≡ true → turn first s ≡ select first s
turn_running first s e = ap (λ b. if b then select first s else s) e

turn-signalled : (first : Bool) (s : Server) → (turn first s).signalled ≡ s.signalled
turn-signalled first s = elim (Bool-cases s.is_listening) [
  | inl e ↦ ap (λ x. x.signalled) (turn_running first s e) ∙ select-signalled first s
  | inr e ↦ ap (λ x. x.signalled) (turn_stopped first s e)
]

turn-IsTold : (first : Bool) (s : Server) → IsTold s → IsTold (turn first s)
turn-IsTold first s (inl h) = inl (ap (λ x. x.is_listening) (turn_stopped first s h) ∙ h)
turn-IsTold first s (inr h) = inr (turn-signalled first s ∙ h)

turn_shutdown : (s : Server) → IsTold s → (turn true s).is_listening ≡ false
turn_shutdown s told = elim (Bool-cases s.is_listening) [
  | inr e ↦ ap (λ x. x.is_listening) (turn_stopped true s e) ∙ e
  | inl e ↦ elim told [
    | inl h ↦ cc
    | inr h ↦ ap (λ x. x.is_listening) (turn_running true s e) ∙ select_shutdown s h
  ]
]

accept_round-Heard : (r : Round) (p : Running) → Heard p → Heard (accept_round r p)
unfolding accept_round
accept_round-Heard r p h = elim (hear-Heard r.ends p h) [
  | inl e ↦ inl e
  | inr e ↦ inr (turn-signalled r.shutdown_first _ ∙ e)
]

accept_round-IsTold : (r : Round) (p : Running) → IsTold p.server → IsTold (accept_round r p).server
unfolding accept_round
accept_round-IsTold r p h = turn-IsTold r.shutdown_first _ (hear-IsTold r.ends p h)

accept_round-ends :
    (r : Round) (p : Running) {called : Bool}
    → r.ends ≡ some called
    → Heard p
    → IsTold (accept_round r p).server
unfolding accept_round
accept_round-ends r p {called} e h =
    turn-IsTold r.shutdown_first _
      (inr (ap (λ x. (hear x p).server.signalled) e ∙ hear-signals called p h))

accept_round_first :
    (r : Round) (p : Running)
    → r.shutdown_first ≡ true
    → IsTold p.server
    → (accept_round r p).server.is_listening ≡ false
unfolding accept_round
accept_round_first r p e h = rw e (turn_shutdown _ (hear-IsTold r.ends p h))

-- Behind its end the loop starts no client.
accept_round_stopped :
    (r : Round) (p : Running)
    → p.server.is_listening ≡ false
    → ((accept_round r p).server.is_listening ≡ false)
      × ((accept_round r p).server.clients ≡ p.server.clients)
unfolding accept_round
accept_round_stopped r p h =
    let s = hear-server r.ends p in
    let same = turn_stopped r.shutdown_first _ (s.0 ∙ h) in
    (ap (λ x. x.is_listening) same ∙ s.0 ∙ h, ap (λ x. x.clients) same ∙ s.1)

serve-Heard : (env : ℕ → Round) (n : ℕ) (p : Running) → Heard p → Heard (serve env n p)
unfolding serve
serve-Heard env zero p h = h
serve-Heard env (suc n) p h = accept_round-Heard (env n) _ (serve-Heard env n p h)

-- What every round keeps holds from some round on.
serve_keeps :
    (P : Running → Type 0) (keep : (r : Round) (q : Running) → P q → P (accept_round r q))
    (env : ℕ → Round) (k n : ℕ) (p : Running)
    → k ≤ n
    → P (serve env k p)
    → P (serve env n p)
unfolding serve
serve_keeps P keep env k zero p le h =
    let same : k ≡ zero = omega arith in subst (λ x. P (serve env x p)) same h
serve_keeps P keep env k (suc n) p le h = elim (le_or_lt k n) [
  | inl le' ↦ keep (env n) _ (serve_keeps P keep env k n p le' h)
  | inr lt ↦ let same : k ≡ suc n = omega arith in subst (λ x. P (serve env x p)) same h
]

serve_stopped :
    (env : ℕ → Round) (k n : ℕ) (p : Running)
    → k ≤ n
    → (serve env k p).server.is_listening ≡ false
    → ((serve env n p).server.is_listening ≡ false)
      × ((serve env n p).server.clients ≡ (serve env k p).server.clients)
serve_stopped env k n p le h =
    serve_keeps
      (λ q. (q.server.is_listening ≡ false) × (q.server.clients ≡ (serve env k p).server.clients))
      (λ r q (off, same). let (off', same') = accept_round_stopped r q off in (off', same' ∙ same))
      env k n p le (h, refl)

-- Once its handle has ended, by `shutdown` or by being dropped, the loop ends after finitely many
-- rounds and starts no client from then on, whatever connections arrive and whatever errors occur,
-- if `select!` is fair: it checks the branch of the shutdown first time and again.
pub serve-end_handle :
    (bound : Result Text ℕ) (allow : List Text) (env : ℕ → Round) (t : ℕ) (called : Bool)
    {p : Running}
    → start_allowlist_proxy bound allow ≡ ok p
    → (env t).ends ≡ some called
    → ((n : ℕ) → (k : ℕ) × (n ≤ k) × ((env k).shutdown_first ≡ true))
    → (k : ℕ) × (t ≤ k)
      × ((n : ℕ)
          → k ≤ n
          → ((serve env n p).server.is_listening ≡ false)
            × ((serve env n p).server.clients ≡ (serve env k p).server.clients))
unfolding start_allowlist_proxy
serve-end_handle bound allow env t called {p} e ends fair =
    let (port, _, done) = >>=-eq-ok bound _ e in
    let sender : p.handle.sender ≡ true = cc done in
    let told : IsTold (serve env (suc t) p).server =
      unfold serve in accept_round-ends (env t) _ ends (serve-Heard env t p (inl sender)) in
    let (k, le, first) = fair (suc t) in
    let told' : IsTold (serve env k p).server =
      serve_keeps (λ q. IsTold q.server) accept_round-IsTold env (suc t) k p le told in
    let stops : (serve env (suc k) p).server.is_listening ≡ false =
      unfold serve in accept_round_first (env k) _ first told' in
    (suc k, omega arith, λ n le'. serve_stopped env (suc k) n p le' stops)
