-- ===== src/Agent/Guardian/Repeats.antt =====
-- Repeated calls under workers/src/zippy_workers/loop_guardian.py.
use new_logistic.Prelude.{
  ℕ, suc, ◌-◌, ◌≤◌, String, ◌&&◌, List, [], ◌∷◌, arith, ◌==◌, string_eq, if◌then◌else◌, eq_iff,
}
use new_logistic.Agent.Guardian.{
  GuardianVerdict, LoopGuardian, Call, count, repeat_key, admit, admit_all, is_allow, reset_tick,
}
use new_logistic.Agent.Guardian.Counter.{admit_counts, admit_counts_allowed}

module _ (digest : String → String) where
  -- How many calls with a key were allowed.
  abbrev pub allowed_with : String → List (Call × GuardianVerdict) → ℕ
  allowed_with k [] = 0
  allowed_with k ((c, v) ∷ trace) =
      if is_allow v && repeat_key digest c == k
      then suc (allowed_with k trace)
      else allowed_with k trace

  allowed_with-le :
      (k : String) (cs : List Call) (g : LoopGuardian)
      → allowed_with k (admit_all digest cs g).0 ≤ g.max_repeat_threshold - count k g.seen
  unfolding admit_all
  allowed_with-le k [] g = omega arith
  allowed_with-le k (c ∷ cs) g = ground (
    arith,
    admit_counts digest c g k,
    admit_counts_allowed digest c g,
    eq_iff (repeat_key digest c) k,
    allowed_with-le k cs (admit digest c g).1,
  )

  -- In a tick at most `max_repeat_threshold` calls with the same key are allowed, whatever other
  -- calls stand between them.
  pub repeats_bounded :
      (k : String) (cs : List Call) (g : LoopGuardian)
      → allowed_with k (admit_all digest cs (reset_tick g)).0 ≤ g.max_repeat_threshold
  unfolding reset_tick
  repeats_bounded k cs g = omega (arith, allowed_with-le k cs (reset_tick g))
