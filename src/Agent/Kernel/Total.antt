-- ===== src/Agent/Kernel/Total.antt =====
-- A tick of workers/src/zippy_workers/kernel.py on a database that answers.
use new_logistic.Prelude.{
  ℕ, String, ◌≡◌, refl, Bool, true, false, Option, some, List, [], ◌∷◌, length, arith, Bool-cases,
  Option-cases, inl, inr,
}
use new_logistic.Prelude.Dict.{Dict, lookup}
use new_logistic.Agent.Executor.{Tool, Ended, returned, raised_illegal, run, is_ok, Ran}
use new_logistic.Agent.Executor.Outcomes.{EndsWell, run-EndsWell}
use new_logistic.Agent.Kernel.{
  Rpc, complete, fail, spend, beat, Row, TickState, Step, goes_on, raises, ◌>>=◌, call, report,
  work, work_all, context, tick_start, run_one_tick, or_empty, executed,
}

record Goes {World : Type 0} (m : Step World) : Type 0 where
  on : (s : TickState World) × (m ≡ goes_on s)

Goes-bind :
    {World : Type 0} (m : Step World) (f : TickState World → Step World)
    → Goes m
    → ((s : TickState World) → Goes (f s))
    → Goes (m >>= f)
Goes-bind (goes_on s) f h k = k s
Goes-bind (raises s) f h k = absurd (cc h.on.1)

-- The run returned.
abbrev has_returned : Ended → Bool
has_returned (returned result) = true
has_returned (raised_illegal s t) = false

EndsWell-has_returned : {World : Type 0} (r : Ran World) → EndsWell r → has_returned r.ended ≡ true
EndsWell-has_returned r h = ground arith

module _ {World : Type 0} (refuses : List Rpc → Rpc → Bool)
    (answers : (calls : List Rpc) (r : Rpc) → refuses calls r ≡ false) where
  Goes-call : (r : Rpc) (s : TickState World) → Goes (call refuses r s)
  Goes-call r s = rw (answers s.calls r) (record { on = (_, refl) })

  Goes-report :
      (agent id : String) (ended : Ended) (s : TickState World)
      → has_returned ended ≡ true
      → Goes (report refuses agent id ended s)
  unfolding report
  Goes-report agent id (raised_illegal current terminal) s h = absurd (cc)
  Goes-report agent id (returned result) s h = elim (Bool-cases (is_ok result)) [
    | inl done ↦
        let r = complete id (or_empty result.output []) in
        rw done (
          Goes-bind (call refuses r s) (call refuses (spend agent 1)) (Goes-call r s)
            (Goes-call (spend agent 1)))
    | inr failed ↦ rw failed (Goes-call (fail id _) s)
  ]

module _ {World Payload : Type 0} (digest : String → String) (hash_args : Payload → Option String)
    (no_payload : Payload) (elapsed : ℕ) (refuses : List Rpc → Rpc → Bool)
    (tools : Dict (Tool World Payload)) (agent : String)
    (answers : (calls : List Rpc) (r : Rpc) → refuses calls r ≡ false) where
  Goes-work :
      (row : Row Payload) (s : TickState World)
      → Goes (work digest hash_args no_payload elapsed refuses tools agent row s)
  unfolding work
  Goes-work row s =
      let ctx = context no_payload agent row in
      elim (Option-cases (lookup ctx.task_type tools)) [
        | inl missing ↦ rw (missing, work) (Goes-call refuses answers (fail row.task_id _) s)
        | inr (tool, found) ↦
            let r = run digest hash_args agent ctx elapsed tool s.guardian s.world in
            rw (found, work)
              (Goes-report refuses answers agent row.task_id r.ended _ (
                EndsWell-has_returned r
                  (run-EndsWell digest hash_args agent ctx elapsed tool s.guardian s.world)))
      ]

  Goes-work_all :
      (rows : List (Row Payload)) (s : TickState World)
      → Goes (work_all digest hash_args no_payload elapsed refuses tools agent rows s)
  unfolding work_all
  Goes-work_all [] s = record { on = (s, refl) }
  Goes-work_all (row ∷ rows) s =
      Goes-bind (work digest hash_args no_payload elapsed refuses tools agent row s)
        (work_all digest hash_args no_payload elapsed refuses tools agent rows) (Goes-work row s)
        (Goes-work_all rows)

  -- If the database raises on no call, no tool and no guardian can end the tick early: it ends with
  -- the number of the claimed rows.
  pub run_one_tick_total :
      (cap : ℕ) (rows : List (Row Payload)) (w : World)
      → (s : TickState World) × (run_one_tick digest hash_args no_payload elapsed refuses tools
            agent cap
            (some rows)
            w
          ≡ executed (length rows) s)
  unfolding run_one_tick
  run_one_tick_total cap rows w =
      let tasks = work_all digest hash_args no_payload elapsed refuses tools agent rows in
      let start = tick_start cap w in
      let (s, e) =
        (Goes-bind (tasks start) (call refuses (beat agent)) (Goes-work_all rows start)
          (Goes-call refuses answers (beat agent))).on in
      (s, rw e)
