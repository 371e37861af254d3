-- ===== src/Agent/Tests/Ticks.antt =====
-- The executor and the kernel (workers/src/zippy_workers) on concrete tasks.
use new_logistic.Prelude.{
  ℕ, suc, ◌≤◌, String, ◌≡◌, ◌≢◌, ◌↔◌, refl, Bool, true, false, Option, none, some, List, [], ◌∷◌,
  arith, eq_iff,
}
use new_logistic.Prelude.Dict.{Dict}
use new_logistic.Prelude.Json.{Fields, end, field, str}
use new_logistic.Agent.State.{completed}
use new_logistic.Agent.Guardian.{allow, LoopGuardian, admit, repeat_key}
use new_logistic.Agent.Executor.{
  number, mapping, no_mapping, TaskContext, Tool, ask_guardian, proposal, run,
}
use new_logistic.Agent.Executor.Outcomes.{
  EndsWell, state_of, gives_clean, run-EndsWell, run-completed_iff,
}
use new_logistic.Agent.Handlers.{Call, Reply, answered, Python}
use new_logistic.Agent.Kernel.{Rpc, Row, TickState, executed, run_one_tick}
use new_logistic.Agent.Kernel.Settled.{IsSettled, run_one_tick-IsSettled}
use new_logistic.Agent.Kernel.Keeps.{last_of}
use new_logistic.Agent.Kernel.Limits.{completions, completions_capped}
use new_logistic.Agent.Kernel.Total.{run_one_tick_total}
use new_logistic.Agent.Kernel.Wiring.{default_tools, default_tools_complete_nothing}

abbrev digest : String → String
digest s = s

abbrev hash_args : Fields → Option String
hash_args payload = some "ab"

abbrev guardian : LoopGuardian
guardian = record { max_tool_calls = 20; max_repeat_threshold = 3; calls_used = 0; seen = [] }

-- A tool that counts its calls.
abbrev counter : Tool ℕ Fields
counter payload n = (mapping (("n", number n) ∷ []), suc n)

-- A tool that counts its calls and answers with an object.
abbrev objector : Tool ℕ Fields
objector payload n = (no_mapping, suc n)

abbrev task : TaskContext Fields
task = record { agent = "order_management"; task_id = "t1"; task_type = "count"; payload = end }

abbrev empty_task : TaskContext Fields
empty_task = record { agent = "order_management"; task_id = "t1"; task_type = ""; payload = end }

run-EndsWell_example : EndsWell (run digest hash_args "order_management" task 7 counter guardian 0)
run-EndsWell_example = run-EndsWell digest hash_args "order_management" task 7 counter guardian 0

run-completed_iff_example :
    (state_of (run digest hash_args "order_management" task 7 counter guardian 0) ≡ some completed)
    ↔ ((task.task_type ≢ "")
        × ((ask_guardian digest hash_args task guardian).0.decision ≡ allow)
        × (gives_clean (mapping (("n", number 0) ∷ [])) ≡ true))
run-completed_iff_example =
    run-completed_iff digest hash_args "order_management" task 7 counter guardian 0

count-ne-nil : ◌≢◌ {A = String} "count" ""
count-ne-nil = ground (arith, eq_iff "count" "")

count_allowed_once : (ask_guardian digest hash_args task guardian).0.decision ≡ allow
unfolding ask_guardian proposal admit repeat_key
count_allowed_once = refl

abbrev answers_all : List Rpc → Rpc → Bool
answers_all calls r = false

answers_all_lem : (calls : List Rpc) (r : Rpc) → answers_all calls r ≡ false
answers_all_lem calls r = refl

abbrev tools : Dict (Tool ℕ Fields)
tools = ("count", counter) ∷ []

abbrev rows : List (Row Fields)
rows =
    record { task_id = "t1"; task_type = some "count"; payload = none }
    ∷ record { task_id = "t2"; task_type = none; payload = none }
    ∷ record { task_id = "t3"; task_type = some "count"; payload = some end }
    ∷ []

run_one_tick-IsSettled_example :
    IsSettled
      ("t1" ∷ "t2" ∷ "t3" ∷ [])
      (run_one_tick digest hash_args end 7 answers_all tools "order_management" 20 (some rows) 0)
run_one_tick-IsSettled_example =
    run_one_tick-IsSettled digest hash_args end 7 answers_all tools "order_management" 20 rows 0

run_one_tick_total_example :
    (s : TickState ℕ) × (run_one_tick digest hash_args end 7 answers_all tools "order_management" 20
        (some rows)
        0
      ≡ executed 3 s)
run_one_tick_total_example =
    run_one_tick_total digest hash_args end 7 answers_all tools "order_management" answers_all_lem
      20 rows 0

completions_capped_example :
    completions
      (last_of (
        run_one_tick digest hash_args end 7 answers_all tools "order_management" 1
          (some rows)
          0)).calls
    ≤ 1
completions_capped_example =
    completions_capped digest hash_args end 7 answers_all tools "order_management" 1 (some rows) 0

abbrev python : Python
python = record { print = λ v. ""; to_float = λ v. answered v; to_int = λ v. answered v }

abbrev answer_all : List Call → Call → Reply
answer_all calls c = answered (str "")

abbrev payment : Fields
payment = field "order_id" (str "o1") (field "event_type" (str "razorpay_payment.captured") end)

default_tools_complete_nothing_example :
    completions
      (last_of (
        run_one_tick digest hash_args end 7 answers_all
          (default_tools python answer_all)
          "order_management"
          20
          (some (
            record {
              task_id = "t1";
              task_type = some "process_payment_event";
              payload = some payment;
            }
            ∷ []))
          [])).calls
    ≡ 0
default_tools_complete_nothing_example =
    default_tools_complete_nothing digest hash_args 7 answers_all python answer_all
      "order_management" 20
      (some (
        record { task_id = "t1"; task_type = some "process_payment_event"; payload = some payment }
        ∷ []))
      []
