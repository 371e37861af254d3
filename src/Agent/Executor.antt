-- ===== src/Agent/Executor.antt =====
-- workers/src/zippy_workers/executor.py: one claimed task through the execution states.
pub mod Outcomes
pub mod Guarded
use text.Mathlib.Text.{starts_with}
use mathlib.Core.List.{foldl}
use new_logistic.Prelude.{
  ℕ, String, concat, Bool, true, false, Option, none, some, List, [], ◌∷◌, ◌&&◌, ◌||◌, not, ◌==◌,
  string_eq, elem, if◌then◌else◌,
}
use new_logistic.Prelude.Dict.{Dict, insert}
use new_logistic.Prelude.Text.{codes, codes_eq, strip, lower}
use new_logistic.Agent.State.{
  ExecutionState, planning, executing, validating, completed, failed, blocked, rejected, Checked,
  legal, illegal_transition, validate_transition,
}
use new_logistic.Agent.Guardian.{
  Decision, allow, deny, GuardianVerdict, LoopGuardian, Call, verdict, admit,
}

-- What an output holds at a key; the executor looks only into texts.
pub data Value : Type 0 where
  str : String → Value
  number : ℕ → Value
  other : Value

-- How a call of a tool ends: a dict, a value that is false (`None`), a value that `dict(...)`
-- refuses with a `TypeError`, `UnauthorizedCapability` with its text, or another exception by its
-- type's name.
pub data ToolReturn : Type 0 where
  mapping : Dict Value → ToolReturn
  nothing : ToolReturn
  no_mapping : ToolReturn
  unauthorized : String → ToolReturn
  exception : String → ToolReturn

pub record TaskContext (Payload : Type 0) : Type 0 where
  pub agent : String
  pub task_id : String
  pub task_type : String
  pub payload : Payload

pub record ExecutionResult : Type 0 where
  pub final_state : ExecutionState
  pub reason : Option String
  pub output : Option (Dict Value)

-- `ExecutionResult.ok`
abbrev pub is_ok : ExecutionResult → Bool
is_ok r = elim r.final_state [ completed ↦ true | _ ↦ false ]

-- The details that the sink is given; the detection method is always `loop_guardian`, and the status
-- `detected`.
pub record Intervention : Type 0 where
  pub agent_name : String
  pub intervention_type : String
  pub state : ExecutionState
  pub reason : String

-- A run returns, or raises `IllegalTransition`.
pub data Ended : Type 0 where
  returned : ExecutionResult → Ended
  raised_illegal : ExecutionState → ExecutionState → Ended

unfoldable pub intervention_type : String → String
intervention_type reason =
    if reason == "hallucination_detected"
    then "hallucination"
    else if starts_with reason "unauthorized"
    then "anomaly_detection"
    else "error_correction"

-- `_record_intervention`; the sink's own exceptions are suppressed.
unfoldable pub record_intervention : String → ExecutionState → String → Intervention
unfolding intervention_type
record_intervention agent terminal reason = record {
  agent_name = agent;
  intervention_type = intervention_type reason;
  state = terminal;
  reason = reason;
}

-- `terminal in (ES.FAILED, ES.BLOCKED)`
abbrev pub is_stopped : ExecutionState → Bool
is_stopped failed = true
is_stopped blocked = true
is_stopped _ = false

-- `_finish`, with what it hands to the sink.
unfoldable pub finish :
    String → ExecutionState → ExecutionState → String → Ended × List Intervention
finish agent current terminal reason = elim (validate_transition current terminal) [
  | illegal_transition s t ↦ (raised_illegal s t, [])
  | legal ↦ (
    returned (record { final_state = terminal; reason = some reason; output = none }),
    if is_stopped terminal then record_intervention agent terminal reason ∷ [] else [],
  )
]

-- `v.strip().lower() in {...}` for a text
unfoldable pub is_fabricated : Value → Bool
unfolding strip lower
is_fabricated (str v) =
    let shape = lower (strip (codes v)) in
    codes_eq shape (codes "hallucinated") || codes_eq shape (codes "i made this up")
is_fabricated _ = false

-- `_output_clean`
unfoldable pub output_clean : Dict Value → Bool
unfolding is_fabricated
output_clean [] = true
output_clean ((k, v) ∷ output) =
    not (k == "<HALLUCINATED>" || k == "__mock_garbage__" || is_fabricated v) && output_clean output

-- `{"elapsed_ms": elapsed, **output}`
unfoldable pub with_elapsed : ℕ → Dict Value → Dict Value
with_elapsed elapsed output =
    foldl (λ d e. insert e.0 e.1 d) (("elapsed_ms", number elapsed) ∷ []) output

-- Where the reason of a guardian's refusal leads.
unfoldable pub denied_state : String → ExecutionState
denied_state reason =
    if elem reason
      ("malformed_payload" ∷ "hallucination_detected" ∷ "repetitive_loop_detected" ∷ [])
    then blocked
    else failed

abbrev pub or_default : Option String → String → String
or_default none d = d
or_default (some s) d = if s == "" then d else s

-- The state of the run: the guardian, and the world that the tools change.
pub record Ran (World : Type 0) : Type 0 where
  pub ended : Ended
  pub interventions : List Intervention
  pub guardian : LoopGuardian
  pub world : World

abbrev pub Tool : Type 0 → Type 0 → Type 0
Tool World Payload = Payload → World → ToolReturn × World

-- The check of an output, and the completion.
pub validate : String → ℕ → Dict Value → Ended × List Intervention
validate agent elapsed output =
    if not (output_clean output)
    then finish agent validating blocked "hallucination_detected"
    else elim (validate_transition validating completed) [
      | illegal_transition s t ↦ (raised_illegal s t, [])
      | legal ↦ (
        returned (record {
          final_state = completed;
          reason = none;
          output = some (with_elapsed elapsed output);
        }),
        [],
      )
    ]

-- What follows the call of the tool.
pub conclude : String → ℕ → ToolReturn → Ended × List Intervention
unfolding validate
conclude agent elapsed (unauthorized message) =
    finish agent executing blocked (concat "unauthorized:" message)
conclude agent elapsed (exception name) = finish agent executing failed name
conclude agent elapsed no_mapping = finish agent executing failed "TypeError"
conclude agent elapsed nothing = validate agent elapsed []
conclude agent elapsed (mapping output) = validate agent elapsed output

module _ {Payload : Type 0} where
  -- The call that the executor proposes: only the tool and the hash are given.
  unfoldable pub proposal : TaskContext Payload → String → Call
  proposal ctx hash = record {
    tool = ctx.task_type;
    args_hash = some hash;
    capabilities_check = true;
    required_capability_satisfied = true;
    payload_valid = true;
    hallucination_score = 0;
  }

module _ {Payload : Type 0} (digest : String → String) (hash_args : Payload → Option String) where
  -- The guarded call of `admit`: an exception, here of the hash, denies.
  unfoldable pub ask_guardian : TaskContext Payload → LoopGuardian → GuardianVerdict × LoopGuardian
  ask_guardian ctx g = elim (hash_args ctx.payload) [
    | none ↦ (verdict deny "guardian_internal_error", g)
    | some hash ↦ admit digest (proposal ctx hash) g
  ]

abbrev ran : {World : Type 0} → Ended × List Intervention → LoopGuardian → World → Ran World
ran (ended, interventions) g w = record {
  ended = ended;
  interventions = interventions;
  guardian = g;
  world = w;
}

module _ {Payload : Type 0} (digest : String → String) (hash_args : Payload → Option String)
    (agent : String) where
  -- What follows the guardian's verdict.
  execute :
      {World : Type 0}
      → TaskContext Payload
      → ℕ
      → Tool World Payload
      → GuardianVerdict
      → LoopGuardian
      → World
      → Ran World
  unfolding conclude
  execute ctx elapsed tool v g w =
      let (result, w') = tool ctx.payload w in
      let reason = or_default v.reason "guard_denied" in
      elim v.decision [
        | allow ↦ ran (conclude agent elapsed result) g w'
        | _ ↦ ran (finish agent executing (denied_state reason) reason) g w
      ]

  -- `Executor.run` of an executor for `agent`; `elapsed` is what the clock measures.
  unfoldable pub run :
      {World : Type 0}
      → TaskContext Payload
      → ℕ
      → Tool World Payload
      → LoopGuardian
      → World
      → Ran World
  unfolding execute ask_guardian
  run ctx elapsed tool g w =
      if ctx.task_type == ""
      then ran (finish agent planning rejected "empty_task_type") g w
      else (let (v, g') = ask_guardian digest hash_args ctx g in execute ctx elapsed tool v g' w)
