-- ===== src/Agent/Kernel/Wiring.antt =====
-- `default_tools_for` of workers/src/zippy_workers/kernel.py: the handlers as the tools of a tick.
use new_logistic.Prelude.{
  ℕ, String, ◌≡◌, refl, Bool, false, Option, none, some, List, [], ◌∷◌, length, arith, Option-cases,
  inl, inr, string_eq,
}
use new_logistic.Prelude.Dict.{Dict, lookup, lookup-All}
use new_logistic.Prelude.Json.{Fields, end}
use new_logistic.Agent.State.{validate_transition}
use new_logistic.Agent.Guardian.{LoopGuardian}
use new_logistic.Agent.Executor.{
  Tool, Ended, returned, raised_illegal, run, TaskContext, no_mapping, exception, finish,
  or_default, ask_guardian,
}
use new_logistic.Agent.Executor.Outcomes.{denied_state-cases, gives_clean}
use new_logistic.Agent.Executor.Guarded.{is_completed}
use new_logistic.Agent.Handlers.{Call, result, escaped, Ports, Action, Python}
use new_logistic.Agent.Handlers.Payments.{process_payment_event}
use new_logistic.Agent.Handlers.Documents.{process_document_upload}
use new_logistic.Agent.Handlers.Notifications.{process_notification_job}
use new_logistic.Agent.Handlers.Placement.{place_order}
use new_logistic.Agent.Handlers.Assignment.{assign_driver}
use new_logistic.Agent.Handlers.Delivery.{update_delivery_status}
use new_logistic.Agent.Kernel.{
  Rpc, fail, beat, Row, TickState, ◌>>=◌, call, report, work, work_all, context, tick_start,
  run_one_tick,
}
use new_logistic.Agent.Kernel.Keeps.{Keeps, Keeps-bind, Keeps-call, last_of, last_of-tick_result}
use new_logistic.Agent.Kernel.Limits.{completions, completions-append}

-- A handler as a tool. Its result is an object of the data class `HandlerResult`, which is true and
-- which `dict(...)` refuses, since it has neither keys nor an iterator.
unfoldable pub handler_tool : (Fields → Action) → Tool (List Call) Fields
handler_tool handler payload calls =
    let (outcome, calls') = handler payload calls in
    (elim outcome [ result r ↦ no_mapping | escaped name message ↦ exception name ], calls')

unfoldable pub default_tools : Python → Ports → Dict (Tool (List Call) Fields)
default_tools python answer =
    ("process_payment_event", handler_tool (process_payment_event python answer))
    ∷ ("process_document_upload", handler_tool (process_document_upload python answer))
    ∷ ("process_notification_job", handler_tool (process_notification_job python answer))
    ∷ ("place_order", handler_tool (place_order python answer))
    ∷ ("assign_driver", handler_tool (assign_driver python answer))
    ∷ ("update_delivery_status", handler_tool (update_delivery_status python answer))
    ∷ []

-- Whatever the call, the tool gives no output that the executor accepts.
abbrev GivesNothing : {World Payload : Type 0} → Tool World Payload → Type 0
GivesNothing tool = (payload : _) (w : _) → gives_clean (tool payload w).0 ≡ false

handler-GivesNothing : (handler : Fields → Action) → GivesNothing (handler_tool handler)
unfolding handler_tool
handler-GivesNothing handler payload calls = ground arith

default-GivesNothing :
    (python : Python) (answer : Ports) (type : String) {tool : Tool (List Call) Fields}
    → lookup type (default_tools python answer) ≡ some tool
    → GivesNothing tool
unfolding default_tools
default-GivesNothing python answer type e =
    lookup-All (λ k tool. GivesNothing tool) (default_tools python answer)
      (
        handler-GivesNothing _,
        (
          handler-GivesNothing _,
          (
            handler-GivesNothing _,
            (handler-GivesNothing _, (handler-GivesNothing _, (handler-GivesNothing _, tt))),
          ),
        ),
      )
      type e

run_no_output :
    {World Payload : Type 0} (digest : String → String) (hash_args : Payload → Option String)
    (agent : String) (ctx : TaskContext Payload) (elapsed : ℕ) (tool : Tool World Payload)
    (g : LoopGuardian) (w : World)
    → gives_clean (tool ctx.payload w).0 ≡ false
    → is_completed (run digest hash_args agent ctx elapsed tool g w).ended ≡ false
unfolding run finish validate_transition
run_no_output digest hash_args agent ctx elapsed tool g w h = ground (
  arith,
  denied_state-cases (or_default (ask_guardian digest hash_args ctx g).0.reason "guard_denied"),
)

abbrev NothingDone : {World : Type 0} → TickState World → Type 0
NothingDone s = completions s.calls ≡ 0

module _ {World : Type 0} (refuses : List Rpc → Rpc → Bool) where
  call-NothingDone :
      (r : Rpc) (s : TickState World)
      → completions (r ∷ []) ≡ 0
      → NothingDone s
      → Keeps NothingDone (call refuses r s)
  call-NothingDone r s free h =
      Keeps-call {P = NothingDone} refuses r s h
        (omega (arith, completions-append s.calls (r ∷ [])))

  report-NothingDone :
      (agent id : String) (ended : Ended) (s : TickState World)
      → NothingDone s
      → is_completed ended ≡ false
      → Keeps NothingDone (report refuses agent id ended s)
  unfolding report
  report-NothingDone agent id (raised_illegal current terminal) s h not_done = record { holds = h }
  report-NothingDone agent id (returned outcome) s h not_done =
      rw not_done (call-NothingDone (fail id _) s refl h)

module _ (digest : String → String) (hash_args : Fields → Option String) (elapsed : ℕ)
    (refuses : List Rpc → Rpc → Bool) (python : Python) (answer : Ports) (agent : String) where
  -- A step over the handlers' tools completes nothing.
  work-NothingDone :
      (row : Row Fields) (s : TickState (List Call))
      → NothingDone s
      → Keeps NothingDone
          (work digest hash_args end elapsed refuses (default_tools python answer) agent row s)
  unfolding work
  work-NothingDone row s h =
      let ctx = context end agent row in
      let tools = default_tools python answer in
      elim (Option-cases (lookup ctx.task_type tools)) [
        | inl missing ↦ rw (missing, work) (call-NothingDone refuses (fail row.task_id _) s refl h)
        | inr (tool, found) ↦
            let r = run digest hash_args agent ctx elapsed tool s.guardian s.world in
            rw (found, work)
              (report-NothingDone refuses agent row.task_id r.ended _ h (
                run_no_output digest hash_args agent ctx elapsed tool s.guardian s.world
                  (default-GivesNothing python answer ctx.task_type found ctx.payload s.world)))
      ]

  work_all-NothingDone :
      (rows : List (Row Fields)) (s : TickState (List Call))
      → NothingDone s
      → Keeps NothingDone
          (work_all digest hash_args end elapsed refuses (default_tools python answer) agent rows s)
  unfolding work_all
  work_all-NothingDone [] s h = record { holds = h }
  work_all-NothingDone (row ∷ rows) s h =
      let tools = default_tools python answer in
      Keeps-bind {P = NothingDone} (work digest hash_args end elapsed refuses tools agent row s)
        (work_all digest hash_args end elapsed refuses tools agent rows) (work-NothingDone row s h)
        (work_all-NothingDone rows)

  -- With the handlers that `default_tools_for` wires in, no tick completes a task: whatever was
  -- claimed, and whatever the handlers have done, every call of `complete_agent_task` is missing.
  pub default_tools_complete_nothing :
      (cap : ℕ) (claimed : Option (List (Row Fields))) (calls : List Call)
      → completions
          (last_of (
            run_one_tick digest hash_args end elapsed refuses
              (default_tools python answer)
              agent
              cap
              claimed
              calls)).calls
        ≡ 0
  unfolding run_one_tick
  default_tools_complete_nothing cap none calls = refl
  default_tools_complete_nothing cap (some rows) calls =
      let tools = default_tools python answer in
      let tasks = work_all digest hash_args end elapsed refuses tools agent rows in
      let start = tick_start cap calls in
      last_of-tick_result {P = NothingDone} (length rows)
        (tasks start >>= call refuses (beat agent))
        (Keeps-bind {P = NothingDone} (tasks start) (call refuses (beat agent))
          (work_all-NothingDone rows start refl)
          (λ t. call-NothingDone refuses (beat agent) t refl))
