-- ===== src/Control.antt =====
-- The control channel (crates/sandbox-core/src/control.rs), over the TCP transport of simple_network
-- as a parameter.
use simple_sandbox_public.Prelude.{◌≡◌, subst, ap, sym, ◌∙◌, Text}
use simple_sandbox_public.Result.{Result, ok, map_err, map_err-eq-ok, ok-injective}
use simple_sandbox_public.Exec.{Exec, ◌>>=◌, pure, lift, map_error}
use simple_sandbox_public.Exec.Keeps.{>>=-reaches}

-- The transport: its listeners, connections and addresses, and the calls of it. `accept` changes
-- the listener that it is called on.
pub record Transport (W : Type 0) : Type 1 where
  pub Listener : Type 0
  pub Connection : Type 0
  pub Addr : Type 0
  pub bind : Text → Exec W Text Listener
  pub local_addr : Listener → Result Text Addr
  pub accept : Listener → Exec W Text (Connection × Listener)
  pub connect : Text → Exec W Text Connection

pub data ControlError : Type 0 where
  message : Text → ControlError

module _ {W : Type 0} (T : Transport W) where
  pub record ControlChannel : Type 0 where
    pub listener : T.Listener
    pub addr : T.Addr

  unfoldable pub bind : Text → Exec W ControlError ControlChannel
  bind addr = do
    listener ← map_error message (T.bind addr)
    local ← lift (map_err message (T.local_addr listener))
    pure (record { listener = listener; addr = local })

  -- The connection, and the channel with what its listener became.
  unfoldable pub accept : ControlChannel → Exec W ControlError (T.Connection × ControlChannel)
  accept c = do
    (connection, listener) ← map_error message (T.accept c.listener)
    pure (connection, record c { listener = listener })

  unfoldable pub connect : Text → Exec W ControlError T.Connection
  connect addr = map_error message (T.connect addr)

  -- A channel that is bound has the address that its listener gives, and keeps it when it accepts.
  pub bind-addr :
      (addr : Text) (w : W) {c : ControlChannel}
      → (bind addr w).0 ≡ ok c
      → T.local_addr c.listener ≡ ok c.addr
  unfolding bind
  bind-addr addr w {c} e =
      let (listener, _, to_1) = >>=-reaches (map_error message (T.bind addr)) _ w e in
      let w1 = (T.bind addr w).1 in
      let e1 = ap (λ x. x.0) (sym to_1) ∙ e in
      let (local, got, to_2) =
        >>=-reaches (lift (map_err message (T.local_addr listener))) _ w1 e1 in
      let same : ◌≡◌ {A = ControlChannel} (record { listener = listener; addr = local }) c =
        ok-injective (ap (λ x. x.0) (sym to_2) ∙ e1) in
      subst (λ x. T.local_addr x.listener ≡ ok x.addr) same
        (map_err-eq-ok message (T.local_addr listener) got)
