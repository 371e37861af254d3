-- ===== src/Agent/Guardian/Budget.antt =====
-- When workers/src/zippy_workers/loop_guardian.py allows a call, and the cap on the calls of a tick.
use new_logistic.Prelude.{
  ℕ, suc, ◌+◌, ◌≤◌, ◌<◌, ◌≡◌, ◌↔◌, String, true, List, [], ◌∷◌, arith, if◌then◌else◌, eq_refl,
}
use new_logistic.Agent.Guardian.{
  allow, GuardianVerdict, LoopGuardian, Call, count, repeat_key, admit, admit_all, is_allow,
  reset_tick, calls_remaining,
}
use new_logistic.Agent.Guardian.Counter.{count-insert}

abbrev pub count_allowed : List (Call × GuardianVerdict) → ℕ
count_allowed [] = 0
count_allowed ((c, v) ∷ trace) =
    if is_allow v then suc (count_allowed trace) else count_allowed trace

module _ (digest : String → String) where
  -- A call is allowed exactly if its capability is granted, calls are left, the payload is valid,
  -- the score is below 0.95, the key has been counted less often than the threshold, and the
  -- capability is enabled.
  pub admit-allow_iff :
      (c : Call) (g : LoopGuardian)
      → ((admit digest c g).0.decision ≡ allow) ↔ (
          (c.required_capability_satisfied ≡ true)
          × (g.calls_used < g.max_tool_calls)
          × (c.payload_valid ≡ true)
          × (c.hallucination_score < 950000)
          × (count (repeat_key digest c) g.seen < g.max_repeat_threshold)
          × (c.capabilities_check ≡ true))
  unfolding admit
  admit-allow_iff c g =
      let k : String = repeat_key digest c in
      ground (arith, count-insert k k (count k g.seen + 1) g.seen, eq_refl k)

  -- One call uses one of the cap if it is allowed, and none if not.
  pub calls_used-admit :
      (c : Call) (g : LoopGuardian)
      → ((admit digest c g).1.calls_used
          ≡ (if is_allow (admit digest c g).0 then g.calls_used + 1 else g.calls_used))
        × ((admit digest c g).1.max_tool_calls ≡ g.max_tool_calls)
        × (g.calls_used ≤ g.max_tool_calls → (admit digest c g).1.calls_used ≤ g.max_tool_calls)
  unfolding admit
  calls_used-admit c g = ground arith

  calls_used-admit_all :
      (cs : List Call) (g : LoopGuardian)
      → g.calls_used ≤ g.max_tool_calls
      → ((admit_all digest cs g).1.calls_used
          ≡ g.calls_used + count_allowed (admit_all digest cs g).0)
        × ((admit_all digest cs g).1.calls_used ≤ g.max_tool_calls)
        × ((admit_all digest cs g).1.max_tool_calls ≡ g.max_tool_calls)
  unfolding admit_all
  calls_used-admit_all [] g h = omega arith
  calls_used-admit_all (c ∷ cs) g h =
      ground (arith, calls_used-admit c g, calls_used-admit_all cs (admit digest c g).1)

  -- In a tick, whatever calls are proposed, the allowed ones are as many as the calls that are used
  -- up, the cap is not passed, and `calls_remaining` is what is left of it.
  pub admit_all-cap :
      (cs : List Call) (g : LoopGuardian)
      → let (trace, last) = admit_all digest cs (reset_tick g) in
        (count_allowed trace ≡ last.calls_used)
        × (count_allowed trace ≤ g.max_tool_calls)
        × (count_allowed trace + calls_remaining last ≡ last.max_tool_calls)
  unfolding reset_tick calls_remaining
  admit_all-cap cs g = omega (arith, calls_used-admit_all cs (reset_tick g) (omega arith))
