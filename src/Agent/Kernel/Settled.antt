-- ===== src/Agent/Kernel/Settled.antt =====
-- Which tasks a tick of workers/src/zippy_workers/kernel.py reports, and in which order.
use mathlib.Core.List.{append_assoc, append-nil}
use new_logistic.Prelude.{
  ℕ, suc, String, ◌≡◌, refl, sym, ap, ◌∙◌, subst, Bool, Option, some, List, [], ◌∷◌, ◌++◌, length,
  Bool-cases, inl, inr, Option-cases,
}
use new_logistic.Prelude.Dict.{Dict, lookup}
use new_logistic.Agent.Executor.{Tool, Ended, returned, raised_illegal, is_ok}
use new_logistic.Agent.Kernel.{
  tick_start, or_empty, Rpc, complete, fail, spend, beat, Row, TickState, Step, goes_on, raises,
  ◌>>=◌, call, report, work, work_all, TickResult, executed, stopped, tick_result, run_one_tick,
  context,
}

-- The tasks that are reported, as completed or as failed, in order.
abbrev pub settled : List Rpc → List String
settled [] = []
settled (complete id _ ∷ calls) = id ∷ settled calls
settled (fail id _ ∷ calls) = id ∷ settled calls
settled (_ ∷ calls) = settled calls

abbrev pub IsPrefix : List String → List String → Type 0
IsPrefix [] ys = Unit
IsPrefix (x ∷ xs) [] = ⊥
IsPrefix (x ∷ xs) (y ∷ ys) = (x ≡ y) × IsPrefix xs ys

IsPrefix-append : (xs ys : List String) → IsPrefix xs (xs ++ ys)
IsPrefix-append [] ys = tt
IsPrefix-append (x ∷ xs) ys = (refl, IsPrefix-append xs ys)

IsPrefix-append_right : (xs ys zs : List String) → IsPrefix xs ys → IsPrefix xs (ys ++ zs)
IsPrefix-append_right [] ys zs h = tt
IsPrefix-append_right (x ∷ xs) [] zs h = elim h [ ]
IsPrefix-append_right (x ∷ xs) (y ∷ ys) zs h = (h.0, IsPrefix-append_right xs ys zs h.1)

settled-append : (xs ys : List Rpc) → settled (xs ++ ys) ≡ settled xs ++ settled ys
settled-append [] ys = refl
settled-append (complete id o ∷ xs) ys = ap (λ l. id ∷ l) (settled-append xs ys)
settled-append (fail id e ∷ xs) ys = ap (λ l. id ∷ l) (settled-append xs ys)
settled-append (spend a n ∷ xs) ys = settled-append xs ys
settled-append (beat a ∷ xs) ys = settled-append xs ys

abbrev Reports : {World : Type 0} → List String → List String → Step World → Type 0
Reports before ids (goes_on s) = settled s.calls ≡ before ++ ids
Reports before ids (raises s) = IsPrefix (settled s.calls) (before ++ ids)

-- From calls that reported `before`, the step reports `ids`, or a first part of them where it raises.
record Settles {World : Type 0} (before ids : List String) (m : Step World) : Type 0 where
  reports : Reports before ids m

module _ {World : Type 0} where
  Reports-trans :
      (before middle ids all : List String) (m : Step World)
      → middle ++ ids ≡ before ++ all
      → Reports middle ids m
      → Reports before all m
  Reports-trans before middle ids all (goes_on t) e p = p ∙ e
  Reports-trans before middle ids all (raises t) e p = subst (IsPrefix (settled t.calls)) e p

  Reports-bind :
      (before ids ids' : List String) (m : Step World) (f : TickState World → Step World)
      → Reports before ids m
      → ((s : TickState World) → Settles (settled s.calls) ids' (f s))
      → Reports before (ids ++ ids') (m >>= f)
  Reports-bind before ids ids' (goes_on s) f h k =
      Reports-trans before (settled s.calls) ids' (ids ++ ids') (f s)
        (rw h (append_assoc before ids ids')) ((k s).reports)
  Reports-bind before ids ids' (raises s) f h k =
      subst (IsPrefix (settled s.calls)) (append_assoc before ids ids')
        (IsPrefix-append_right (settled s.calls) (before ++ ids) ids' h)

  Settles-bind :
      {before ids ids' : List String} (m : Step World) (f : TickState World → Step World)
      → Settles before ids m
      → ((s : TickState World) → Settles (settled s.calls) ids' (f s))
      → Settles before (ids ++ ids') (m >>= f)
  Settles-bind {before} {ids} {ids'} m f h k = record {
    reports = Reports-bind before ids ids' m f h.reports k;
  }

  Settles-call :
      (refuses : List Rpc → Rpc → Bool) (r : Rpc) (s : TickState World)
      → Settles (settled s.calls) (settled (r ∷ [])) (call refuses r s)
  Settles-call refuses r s = elim (Bool-cases (refuses s.calls r)) [
    | inl refused ↦
        rw refused (record { reports = IsPrefix-append (settled s.calls) (settled (r ∷ [])) })
    | inr made ↦ rw made (record { reports = settled-append s.calls (r ∷ []) })
  ]

  Settles-report :
      (refuses : List Rpc → Rpc → Bool) (agent id : String) (ended : Ended) (s : TickState World)
      → Settles (settled s.calls) (id ∷ []) (report refuses agent id ended s)
  unfolding report
  Settles-report refuses agent id (raised_illegal current terminal) s = record {
    reports = IsPrefix-append (settled s.calls) (id ∷ []);
  }
  Settles-report refuses agent id (returned result) s = elim (Bool-cases (is_ok result)) [
    | inl done ↦
        let output = or_empty result.output [] in
        rw done (
          Settles-bind (call refuses (complete id output) s) (call refuses (spend agent 1))
            (Settles-call refuses (complete id output) s) (Settles-call refuses (spend agent 1)))
    | inr failed ↦ rw failed (Settles-call refuses (fail id _) s)
  ]

-- What holds of a tick's result: it ended and reported every claimed task once, in the order of the
-- claim, and returns their number; or an exception ended it, when a first part of them was reported.
abbrev pub IsSettled : {World : Type 0} → List String → TickResult World → Type 0
IsSettled ids (executed n s) = (n ≡ length ids) × (settled s.calls ≡ ids)
IsSettled ids (stopped s) = IsPrefix (settled s.calls) ids

abbrev pub ids_of : {Payload : Type 0} → List (Row Payload) → List String
ids_of [] = []
ids_of (row ∷ rows) = row.task_id ∷ ids_of rows

length-ids_of : {Payload : Type 0} (rows : List (Row Payload)) → length rows ≡ length (ids_of rows)
length-ids_of [] = refl
length-ids_of (row ∷ rows) = ap suc (length-ids_of rows)

IsSettled-tick_result :
    {World Payload : Type 0} (rows : List (Row Payload)) (m : Step World)
    → Reports [] (ids_of rows ++ []) m
    → IsSettled (ids_of rows) (tick_result (length rows) m)
IsSettled-tick_result rows (goes_on s) h = (length-ids_of rows, h ∙ append-nil (ids_of rows))
IsSettled-tick_result rows (raises s) h =
    subst (IsPrefix (settled s.calls)) (append-nil (ids_of rows)) h

module _ {World Payload : Type 0} (digest : String → String) (hash_args : Payload → Option String)
    (no_payload : Payload) (elapsed : ℕ) (refuses : List Rpc → Rpc → Bool)
    (tools : Dict (Tool World Payload)) (agent : String) where
  Settles-work :
      (row : Row Payload) (s : TickState World)
      → Settles
          (settled s.calls)
          (row.task_id ∷ [])
          (work digest hash_args no_payload elapsed refuses tools agent row s)
  unfolding work
  Settles-work row s =
      let ctx = context no_payload agent row in
      elim (Option-cases (lookup ctx.task_type tools)) [
        | inl missing ↦ rw (missing, work) (Settles-call refuses (fail row.task_id _) s)
        | inr (tool, found) ↦ rw (found, work) (Settles-report refuses agent row.task_id _ _)
      ]

  Settles-work_all :
      (rows : List (Row Payload)) (s : TickState World)
      → Settles
          (settled s.calls)
          (ids_of rows)
          (work_all digest hash_args no_payload elapsed refuses tools agent rows s)
  unfolding work_all
  Settles-work_all [] s = record { reports = sym (append-nil (settled s.calls)) }
  Settles-work_all (row ∷ rows) s =
      Settles-bind (work digest hash_args no_payload elapsed refuses tools agent row s)
        (work_all digest hash_args no_payload elapsed refuses tools agent rows) (Settles-work row s)
        (Settles-work_all rows)

  -- A tick that ends has reported every claimed task, as completed or as failed, once and in the
  -- order of the claim, and returns their number. A tick that an exception of the database ends has
  -- reported the tasks of a first part of the claim, once and in order.
  pub run_one_tick-IsSettled :
      (max_calls : ℕ) (rows : List (Row Payload)) (w : World)
      → IsSettled (ids_of rows) (
          run_one_tick digest hash_args no_payload elapsed refuses tools agent max_calls
            (some rows)
            w)
  unfolding run_one_tick
  run_one_tick-IsSettled max_calls rows w =
      let tasks = work_all digest hash_args no_payload elapsed refuses tools agent rows in
      let start = tick_start max_calls w in
      IsSettled-tick_result rows (tasks start >>= call refuses (beat agent)) (
        (Settles-bind {before = []} (tasks start) (call refuses (beat agent))
          (Settles-work_all rows start) (Settles-call refuses (beat agent))).reports)
