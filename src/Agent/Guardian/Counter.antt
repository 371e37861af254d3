-- ===== src/Agent/Guardian/Counter.antt =====
-- The repeat counter of workers/src/zippy_workers/loop_guardian.py after one call of the gate.
use new_logistic.Prelude.{
  ℕ, ◌+◌, ◌≤◌, ◌≡◌, String, true, arith, ◌==◌, string_eq, if◌then◌else◌, eq_iff, eq_refl,
}
use new_logistic.Prelude.Dict.{Dict, insert, lookup-insert}
use new_logistic.Agent.Guardian.{LoopGuardian, Call, count, repeat_key, admit, is_allow}

pub count-insert :
    (k j : String) (n : ℕ) (d : Dict ℕ) → count j (insert k n d) ≡ (if k == j then n else count j d)
count-insert k j n d = ground (arith, lookup-insert k j n d)

module _ (digest : String → String) (c : Call) (g : LoopGuardian) where
  -- One call never lowers a count, and leaves the limits as they are.
  pub admit_counts :
      (k : String)
      → (count k g.seen ≤ count k (admit digest c g).1.seen)
        × ((admit digest c g).1.max_repeat_threshold ≡ g.max_repeat_threshold)
        × ((admit digest c g).1.max_tool_calls ≡ g.max_tool_calls)
  unfolding admit
  admit_counts k = ground (
    arith,
    count-insert (repeat_key digest c) k (count (repeat_key digest c) g.seen + 1) g.seen,
    eq_iff (repeat_key digest c) k,
  )

  -- An allowed call raises the count of its key by one, up to the threshold.
  pub admit_counts_allowed :
      is_allow (admit digest c g).0 ≡ true
      → let k = repeat_key digest c in
        (count k (admit digest c g).1.seen ≡ count k g.seen + 1)
        × (count k g.seen + 1 ≤ g.max_repeat_threshold)
  unfolding admit
  admit_counts_allowed h =
      let k : String = repeat_key digest c in
      ground (arith, count-insert k k (count k g.seen + 1) g.seen, eq_refl k)
