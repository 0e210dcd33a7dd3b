-- ===== src/Prelude/Order.antt =====
-- Case lemmas on the order of the native numbers.
use Prim.Native.Nat.{ℕ, ◌≤◌, ◌<◌}
use mathlib.Core.Logic.{◌⊎◌, inl, inr}
use native.Mathlib.Decide.{dec_le}
use native.Mathlib.Omega.{arith}

pub le_or_lt : (a b : ℕ) → (a ≤ b) ⊎ (b < a)
le_or_lt a b = elim (dec_le a b) [ yes h ↦ inl h | no h ↦ inr (omega arith) ]
