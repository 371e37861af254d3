-- ===== src/Agent/Kernel/Limits.antt =====
-- How many tasks a tick of workers/src/zippy_workers/kernel.py completes.
use new_logistic.Prelude.{
  length, ℕ, suc, ◌+◌, ◌≤◌, String, ◌≡◌, refl, Bool, true, Option, none, some, List, [], ◌∷◌, ◌++◌,
  arith, Bool-cases, Option-cases, inl, inr,
}
use new_logistic.Prelude.Dict.{Dict, lookup}
use new_logistic.Agent.Guardian.{new_guardian}
use new_logistic.Agent.Executor.{Tool, Ended, returned, raised_illegal, is_ok}
use new_logistic.Agent.Executor.Guarded.{is_completed, calls_used-run}
use new_logistic.Agent.Kernel.{
  Rpc, complete, fail, spend, beat, Row, TickState, ◌>>=◌, call, report, work, work_all, context,
  tick_start, run_one_tick, or_empty, tick_result,
}
use new_logistic.Agent.Kernel.Keeps.{Keeps, Keeps-bind, Keeps-call, last_of, last_of-tick_result}

abbrev pub completions : List Rpc → ℕ
completions [] = 0
completions (complete id output ∷ calls) = suc (completions calls)
completions (_ ∷ calls) = completions calls

pub completions-append :
    (xs ys : List Rpc) → completions (xs ++ ys) ≡ completions xs + completions ys
completions-append [] ys = omega arith
completions-append (complete id output ∷ xs) ys = omega (arith, completions-append xs ys)
completions-append (_ ∷ xs) ys = omega (arith, completions-append xs ys)

-- Each completion has used up one of the guardian's calls.
record IsWithin {World : Type 0} (cap : ℕ) (s : TickState World) : Type 0 where
  paid : completions s.calls ≤ s.guardian.calls_used
  capped : s.guardian.calls_used ≤ s.guardian.max_tool_calls
  fixed : s.guardian.max_tool_calls ≡ cap

module _ {World : Type 0} (cap : ℕ) (refuses : List Rpc → Rpc → Bool) where
  call-IsWithin :
      (r : Rpc) (s : TickState World)
      → completions (r ∷ []) ≡ 0
      → IsWithin cap s
      → Keeps (IsWithin cap) (call refuses r s)
  call-IsWithin r s free h =
      Keeps-call refuses r s h (omega (arith, completions-append s.calls (r ∷ [])))

  report-IsWithin :
      (agent id : String) (ended : Ended) (s : TickState World)
      → IsWithin cap s
      → (is_completed ended ≡ true → completions s.calls + 1 ≤ s.guardian.calls_used)
      → Keeps (IsWithin cap) (report refuses agent id ended s)
  unfolding report
  report-IsWithin agent id (raised_illegal current terminal) s h paid = record { holds = h }
  report-IsWithin agent id (returned result) s h paid = elim (Bool-cases (is_ok result)) [
    | inl done ↦
        let r = complete id (or_empty result.output []) in
        rw done (
          Keeps-bind (call refuses r s) (call refuses (spend agent 1))
            (Keeps-call refuses r s h
              (omega (arith, paid done, completions-append s.calls (r ∷ []))))
            (λ t. call-IsWithin (spend agent 1) t refl))
    | inr failed ↦ rw failed (call-IsWithin (fail id _) s refl h)
  ]

module _ {World Payload : Type 0} (digest : String → String) (hash_args : Payload → Option String)
    (no_payload : Payload) (elapsed : ℕ) (refuses : List Rpc → Rpc → Bool)
    (tools : Dict (Tool World Payload)) (agent : String) (cap : ℕ) where
  work-IsWithin :
      (row : Row Payload) (s : TickState World)
      → IsWithin cap s
      → Keeps (IsWithin cap) (work digest hash_args no_payload elapsed refuses tools agent row s)
  unfolding work
  work-IsWithin row s h =
      let ctx = context no_payload agent row in
      elim (Option-cases (lookup ctx.task_type tools)) [
        | inl missing ↦ rw (missing, work) (call-IsWithin cap refuses (fail row.task_id _) s refl h)
        | inr (tool, found) ↦
            let used = calls_used-run digest hash_args ctx s.guardian agent elapsed tool s.world in
            rw (found, work)
              (report-IsWithin cap refuses agent row.task_id _ _ (omega (arith, used))
                (λ done. omega (arith, used)))
      ]

  work_all-IsWithin :
      (rows : List (Row Payload)) (s : TickState World)
      → IsWithin cap s
      → Keeps
          (IsWithin cap)
          (work_all digest hash_args no_payload elapsed refuses tools agent rows s)
  unfolding work_all
  work_all-IsWithin [] s h = record { holds = h }
  work_all-IsWithin (row ∷ rows) s h =
      Keeps-bind (work digest hash_args no_payload elapsed refuses tools agent row s)
        (work_all digest hash_args no_payload elapsed refuses tools agent rows)
        (work-IsWithin row s h) (work_all-IsWithin rows)

  -- However a tick ends, it has completed at most as many tasks as the cap on the tool calls.
  pub completions_capped :
      (claimed : Option (List (Row Payload))) (w : World)
      → completions
          (last_of (
            run_one_tick digest hash_args no_payload elapsed refuses tools agent cap claimed
              w)).calls
        ≤ cap
  unfolding run_one_tick
  completions_capped none w = omega arith
  completions_capped (some rows) w =
      let tasks = work_all digest hash_args no_payload elapsed refuses tools agent rows in
      let start = tick_start cap w in
      let ends : IsWithin cap
          (last_of (tick_result (length rows) (tasks start >>= call refuses (beat agent)))) =
        last_of-tick_result (length rows) (tasks start >>= call refuses (beat agent)) (
          Keeps-bind (tasks start) (call refuses (beat agent))
            (work_all-IsWithin rows start (unfold new_guardian in omega arith))
            (λ t. call-IsWithin cap refuses (beat agent) t refl)) in
      omega (arith, ends)
