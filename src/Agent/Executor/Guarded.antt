-- ===== src/Agent/Executor/Guarded.antt =====
-- What a run of workers/src/zippy_workers/executor.py does to the guardian's count of calls.
use new_logistic.Prelude.{
  ℕ, ◌+◌, ◌≤◌, String, ◌≡◌, Bool, true, false, Option, arith, if◌then◌else◌, Option-cases, inl, inr,
}
use new_logistic.Agent.State.{validate_transition}
use new_logistic.Agent.Guardian.{LoopGuardian, is_allow}
use new_logistic.Agent.Guardian.Budget.{calls_used-admit}
use new_logistic.Agent.Executor.{
  TaskContext, Ended, returned, is_ok, Tool, finish, or_default, proposal, ask_guardian, run,
}
use new_logistic.Agent.Executor.Outcomes.{denied_state-cases}

-- The run came back completed.
abbrev pub is_completed : Ended → Bool
is_completed ended = elim ended [ returned result ↦ is_ok result | _ ↦ false ]

module _ {Payload : Type 0} (digest : String → String) (hash_args : Payload → Option String)
    (ctx : TaskContext Payload) (g : LoopGuardian) where
  calls_used-ask_guardian :
      let (v, g') = ask_guardian digest hash_args ctx g in
      (g'.calls_used ≡ (if is_allow v then g.calls_used + 1 else g.calls_used))
      × (g'.max_tool_calls ≡ g.max_tool_calls)
      × (g.calls_used ≤ g.max_tool_calls → g'.calls_used ≤ g.max_tool_calls)
  unfolding ask_guardian
  calls_used-ask_guardian = elim (Option-cases (hash_args ctx.payload)) [
    | inl none_given ↦ rw (none_given, ask_guardian) (ground arith)
    | inr (hash, given) ↦ rw (given, ask_guardian) (calls_used-admit digest (proposal ctx hash) g)
  ]

  -- A run uses at most one call of the guardian, within the cap, and one that completes uses one.
  pub calls_used-run :
      (agent : String) {World : Type 0} (elapsed : ℕ) (tool : Tool World Payload) (w : World)
      → let r = run digest hash_args agent ctx elapsed tool g w in
        (r.guardian.max_tool_calls ≡ g.max_tool_calls)
        × (g.calls_used ≤ r.guardian.calls_used)
        × (g.calls_used ≤ g.max_tool_calls → r.guardian.calls_used ≤ g.max_tool_calls)
        × (is_completed r.ended ≡ true → g.calls_used + 1 ≤ r.guardian.calls_used)
  unfolding run finish validate_transition
  calls_used-run agent elapsed tool w = ground (
    arith,
    calls_used-ask_guardian,
    denied_state-cases (or_default (ask_guardian digest hash_args ctx g).0.reason "guard_denied"),
  )
