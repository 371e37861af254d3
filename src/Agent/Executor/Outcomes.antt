-- ===== src/Agent/Executor/Outcomes.antt =====
-- How workers/src/zippy_workers/executor.py ends a task.
use new_logistic.Prelude.{
  ℕ, String, ◌≡◌, ◌≢◌, ◌↔◌, ◌⊎◌, Bool, true, false, Option, none, some, [], arith, length, eq_iff,
  string_eq, if◌then◌else◌,
}
use new_logistic.Agent.State.{
  ExecutionState, completed, failed, blocked, rejected, validate_transition,
}
use new_logistic.Agent.Guardian.{allow, LoopGuardian}
use new_logistic.Agent.Executor.{
  ToolReturn, mapping, nothing, no_mapping, TaskContext, returned, raised_illegal, is_stopped,
  finish, output_clean, denied_state, or_default, Ran, Tool, ask_guardian, run,
}

-- The run came back, in a final state, and told the sink once of a failure or a block, else never.
abbrev pub EndsWell : {World : Type 0} → Ran World → Type 0
EndsWell r = elim r.ended [
  | raised_illegal s t ↦ ⊥
  | returned result ↦
      ((result.final_state ≡ completed)
        ⊎ (result.final_state ≡ failed)
        ⊎ (result.final_state ≡ blocked)
        ⊎ (result.final_state ≡ rejected))
      × (length r.interventions ≡ (if is_stopped result.final_state then 1 else 0))
]

-- The tool's result is a dict, or nothing, and no key or value of it is fabricated.
abbrev pub gives_clean : ToolReturn → Bool
gives_clean (mapping output) = output_clean output
gives_clean nothing = output_clean []
gives_clean _ = false

pub denied_state-cases :
    (reason : String) → (denied_state reason ≡ blocked) ⊎ (denied_state reason ≡ failed)
unfolding denied_state
denied_state-cases reason = ground arith

abbrev pub state_of : {World : Type 0} → Ran World → Option ExecutionState
state_of r = elim r.ended [ raised_illegal s t ↦ none | returned result ↦ some result.final_state ]

abbrev pub reason_of : {World : Type 0} → Ran World → Option String
reason_of r = elim r.ended [ raised_illegal s t ↦ none | returned result ↦ result.reason ]

module _ {Payload : Type 0} (digest : String → String) (hash_args : Payload → Option String)
    (agent : String) {World : Type 0} (ctx : TaskContext Payload) (elapsed : ℕ)
    (tool : Tool World Payload) (g : LoopGuardian) (w : World) where
  -- Every run returns: no `IllegalTransition` is raised, the final state is one of the four terminal ones, and the sink is told once of a failure or a block, and of nothing else.
  pub run-EndsWell : EndsWell (run digest hash_args agent ctx elapsed tool g w)
  unfolding run finish validate_transition
  run-EndsWell = ground (
    arith,
    denied_state-cases (or_default (ask_guardian digest hash_args ctx g).0.reason "guard_denied"),
  )

  -- A run completes exactly if the task names a type, the guardian allows the call, and the tool
  -- comes back with a dict or nothing, in which nothing is fabricated.
  pub run-completed_iff :
      (state_of (run digest hash_args agent ctx elapsed tool g w) ≡ some completed) ↔ (
        (ctx.task_type ≢ "")
        × ((ask_guardian digest hash_args ctx g).0.decision ≡ allow)
        × (gives_clean (tool ctx.payload w).0 ≡ true))
  unfolding run finish validate_transition
  run-completed_iff = ground (
    arith,
    eq_iff ctx.task_type "",
    denied_state-cases (or_default (ask_guardian digest hash_args ctx g).0.reason "guard_denied"),
  )

  -- Where the task names no type or the guardian does not allow the call, the tool is not called: the
  -- world stays as it is, and the run is the one that any other tool has.
  pub run_unallowed :
      (tool' : Tool World Payload)
      → (ctx.task_type ≡ "") ⊎ ((ask_guardian digest hash_args ctx g).0.decision ≢ allow)
      → ((run digest hash_args agent ctx elapsed tool g w).world ≡ w)
        × (run digest hash_args agent ctx elapsed tool g w
            ≡ run digest hash_args agent ctx elapsed tool' g w)
  unfolding run
  run_unallowed tool' h = ground (arith, eq_iff ctx.task_type "")

  -- A tool that is called and answers with an object that is no mapping ends the task as failed with
  -- `TypeError`, and what it did to the world stays done.
  pub run_no_mapping :
      ctx.task_type ≢ ""
      → (ask_guardian digest hash_args ctx g).0.decision ≡ allow
      → (tool ctx.payload w).0 ≡ no_mapping
      → let r = run digest hash_args agent ctx elapsed tool g w in
        (state_of r ≡ some failed)
        × (reason_of r ≡ some "TypeError")
        × (r.world ≡ (tool ctx.payload w).1)
  unfolding run finish validate_transition
  run_no_mapping nonempty allowed object = ground (arith, eq_iff ctx.task_type "")
