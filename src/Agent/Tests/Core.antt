-- ===== src/Agent/Tests/Core.antt =====
-- The execution states, the capabilities and the guardian (workers/src/zippy_workers) on concrete
-- inputs.
use new_logistic.Prelude.{◌≤◌, String, ◌≡◌, ◌≢◌, refl, true, none, some, [], ◌∷◌, arith, eq_iff}
use new_logistic.Agent.State.{planning, executing, validating, completed, validate_transition}
use new_logistic.Agent.State.Runs.{Run, here, enter, Run-completed}
use new_logistic.Agent.Guardian.{
  allow, blocked, LoopGuardian, Call, verdict, reset_tick, repeat_key, admit, admit_all,
}
use new_logistic.Agent.Guardian.Repeats.{allowed_with, repeats_bounded}

abbrev straight : Run planning (executing ∷ validating ∷ completed ∷ []) completed
unfolding validate_transition
straight = enter refl (enter refl (enter refl here))

Run-completed_example :
    executing ∷ validating ∷ completed ∷ [] ≡ executing ∷ validating ∷ completed ∷ []
Run-completed_example = Run-completed straight

abbrev digest : String → String
digest s = s

abbrev proposed : Call
proposed = record {
  tool = "place_order";
  args_hash = some "ab";
  capabilities_check = true;
  required_capability_satisfied = true;
  payload_valid = true;
  hallucination_score = 0;
}

abbrev guardian : LoopGuardian
guardian = record { max_tool_calls = 20; max_repeat_threshold = 3; calls_used = 0; seen = [] }

-- The fourth call with the same key is a loop.
admit_fourth :
    (admit_all digest (proposed ∷ proposed ∷ proposed ∷ proposed ∷ []) guardian).0
    ≡ (proposed, record { decision = allow; reason = none })
      ∷ (proposed, record { decision = allow; reason = none })
      ∷ (proposed, record { decision = allow; reason = none })
      ∷ (proposed, verdict blocked "repetitive_loop_detected")
      ∷ []
unfolding admit_all admit repeat_key
admit_fourth = refl

repeats_bounded_example :
    allowed_with digest "place_order:ab"
      (admit_all digest (proposed ∷ proposed ∷ proposed ∷ proposed ∷ []) (reset_tick guardian)).0
    ≤ 3
repeats_bounded_example =
    repeats_bounded digest "place_order:ab" (proposed ∷ proposed ∷ proposed ∷ proposed ∷ [])
      guardian

not_read : ◌≢◌ {A = String} "write" "read"
not_read = ground (arith, eq_iff "write" "read")
