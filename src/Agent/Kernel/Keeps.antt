-- ===== src/Agent/Kernel/Keeps.antt =====
-- Invariants of the steps of a tick (workers/src/zippy_workers/kernel.py), however it ends.
use new_logistic.Prelude.{ℕ, Bool, List, [], ◌∷◌, ◌++◌, Bool-cases, inl, inr}
use new_logistic.Agent.Kernel.{
  Rpc, TickState, Step, goes_on, raises, ◌>>=◌, call, TickResult, executed, stopped, tick_result,
}

-- The state that a step leaves.
abbrev pub last : {World : Type 0} → Step World → TickState World
last (goes_on s) = s
last (raises s) = s

abbrev pub last_of : {World : Type 0} → TickResult World → TickState World
last_of (executed n s) = s
last_of (stopped s) = s

pub record Keeps {World : Type 0} (P : TickState World → Type 0) (m : Step World) : Type 0 where
  pub holds : P (last m)

module _ {World : Type 0} {P : TickState World → Type 0} where
  pub Keeps-bind :
      (m : Step World) (f : TickState World → Step World)
      → Keeps P m
      → ((s : TickState World) → P s → Keeps P (f s))
      → Keeps P (m >>= f)
  Keeps-bind (goes_on s) f h k = k s h.holds
  Keeps-bind (raises s) f h k = record { holds = h.holds }

  pub Keeps-call :
      (refuses : List Rpc → Rpc → Bool) (r : Rpc) (s : TickState World)
      → P s
      → P (record s { calls = s.calls ++ r ∷ [] })
      → Keeps P (call refuses r s)
  Keeps-call refuses r s h h' = elim (Bool-cases (refuses s.calls r)) [
    | inl refused ↦ rw refused (record { holds = h })
    | inr made ↦ rw made (record { holds = h' })
  ]

  pub last_of-tick_result : (n : ℕ) (m : Step World) → Keeps P m → P (last_of (tick_result n m))
  last_of-tick_result n (goes_on s) h = h.holds
  last_of-tick_result n (raises s) h = h.holds
