-- ===== src/Agent/Kernel.antt =====
-- workers/src/zippy_workers/kernel.py: one heartbeat of an agent. The remote procedures of the
-- database are not code of the program: of a call the kernel sees only whether it raises, which
-- `refuses` decides from the calls made before.
pub mod Settled
pub mod Keeps
pub mod Limits
pub mod Total
pub mod Wiring
use new_logistic.Prelude.{
  ℕ, suc, String, concat, Bool, true, false, Option, none, some, List, [], ◌∷◌, ◌++◌, length,
  if◌then◌else◌,
}
use new_logistic.Prelude.Dict.{Dict, lookup}
use new_logistic.Agent.State.{
  ExecutionState, planning, executing, validating, completed, failed, blocked, rejected,
}
use new_logistic.Agent.Guardian.{LoopGuardian, new_guardian}
use new_logistic.Agent.Executor.{
  Value, TaskContext, ExecutionResult, Ended, returned, raised_illegal, Ran, Tool, run, is_ok,
}

-- The calls of `SupabaseTaskSource` that a tick makes after the claim.
pub data Rpc : Type 0 where
  complete : String → Dict Value → Rpc
  fail : String → String → Rpc
  spend : String → ℕ → Rpc
  beat : String → Rpc

-- A claimed row; a missing or false task type or payload is `none`.
pub record Row (Payload : Type 0) : Type 0 where
  pub task_id : String
  pub task_type : Option String
  pub payload : Option Payload

-- `ExecutionState.value`
pub value : ExecutionState → String
value planning = "PLANNING"
value executing = "EXECUTING"
value validating = "VALIDATING"
value completed = "COMPLETED"
value failed = "FAILED"
value blocked = "BLOCKED"
value rejected = "REJECTED"

abbrev pub or_empty {ℓ} : {A : Type ℓ} → Option A → A → A
or_empty none d = d
or_empty (some a) d = a

-- How a reason is printed: `None` where there is none.
abbrev pub print_reason : Option String → String
print_reason none = "None"
print_reason (some reason) = reason

-- What a tick works on: its guardian, the world of the tools, and the calls made so far.
pub record TickState (World : Type 0) : Type 0 where
  pub guardian : LoopGuardian
  pub world : World
  pub calls : List Rpc

-- A step goes on, or an exception leaves the tick.
pub data Step (World : Type 0) : Type 0 where
  goes_on : TickState World → Step World
  raises : TickState World → Step World

infixl 5 ◌>>=◌
abbrev pub ◌>>=◌ : {World : Type 0} → Step World → (TickState World → Step World) → Step World
goes_on s >>= f = f s
raises s >>= f = raises s

-- One remote call.
abbrev pub call : {World : Type 0} → (List Rpc → Rpc → Bool) → Rpc → TickState World → Step World
call refuses r s =
    if refuses s.calls r then raises s else goes_on (record s { calls = s.calls ++ r ∷ [] })

module _ {Payload : Type 0} where
  pub context : Payload → String → Row Payload → TaskContext Payload
  context no_payload agent row = record {
    agent = agent;
    task_id = row.task_id;
    task_type = or_empty row.task_type "";
    payload = or_empty row.payload no_payload;
  }

module _ {World : Type 0} (refuses : List Rpc → Rpc → Bool) (agent : String) where
  -- What is reported of a run.
  pub report : String → Ended → TickState World → Step World
  report task_id (raised_illegal current terminal) s = raises s
  report task_id (returned result) s =
      if is_ok result
      then (call refuses (complete task_id (or_empty result.output [])) s
          >>= call refuses (spend agent 1))
      else call refuses
          (fail task_id
            (concat (value result.final_state) (concat ":" (print_reason result.reason))))
          s

module _ {World Payload : Type 0} (digest : String → String) (hash_args : Payload → Option String)
    (no_payload : Payload) (elapsed : ℕ) (refuses : List Rpc → Rpc → Bool)
    (tools : Dict (Tool World Payload)) (agent : String) where
  -- The body of the loop over the claimed rows.
  pub work : Row Payload → TickState World → Step World
  unfolding report context
  work row s =
      let ctx = context no_payload agent row in
      elim (lookup ctx.task_type tools) [
        | none ↦ call refuses (fail row.task_id (concat "no_handler:" ctx.task_type)) s
        | some tool ↦
            let r = run digest hash_args agent ctx elapsed tool s.guardian s.world in
            report refuses agent row.task_id r.ended
              (record s { guardian = r.guardian; world = r.world })
      ]

  pub work_all : List (Row Payload) → TickState World → Step World
  work_all [] s = goes_on s
  work_all (row ∷ rows) s = work row s >>= work_all rows

-- What a tick returns: the number of claimed rows, or an exception, with the state that it leaves.
pub data TickResult (World : Type 0) : Type 0 where
  executed : ℕ → TickState World → TickResult World
  stopped : TickState World → TickResult World

abbrev pub tick_result : {World : Type 0} → ℕ → Step World → TickResult World
tick_result n (goes_on s) = executed n s
tick_result n (raises s) = stopped s

-- The guardian is new in each tick, with the default threshold of repeats.
abbrev pub tick_start : {World : Type 0} → ℕ → World → TickState World
tick_start max_calls w = record { guardian = new_guardian max_calls 3; world = w; calls = [] }

-- `run_one_tick`, with the rows that the claim answered, or `none` where it raised.
unfoldable pub run_one_tick :
    {World Payload : Type 0}
    → (String → String)
    → (Payload → Option String)
    → Payload
    → ℕ
    → (List Rpc → Rpc → Bool)
    → Dict (Tool World Payload)
    → String
    → ℕ
    → Option (List (Row Payload))
    → World
    → TickResult World
unfolding work work_all new_guardian
run_one_tick digest hash_args no_payload elapsed refuses tools agent max_calls claimed w =
    let start = tick_start max_calls w in
    elim claimed [
      | none ↦ stopped start
      | some rows ↦ tick_result (length rows) (
          work_all digest hash_args no_payload elapsed refuses tools agent rows start
          >>= call refuses (beat agent))
    ]
