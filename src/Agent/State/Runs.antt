-- ===== src/Agent/State/Runs.antt =====
-- The runs that workers/src/zippy_workers/state_machine.py allows.
use new_logistic.Prelude.{ℕ, suc, ◌≤◌, ◌≡◌, refl, ◌↔◌, List, [], ◌∷◌, arith, length, ap}
use new_logistic.Agent.State.{
  ExecutionState, planning, executing, validating, completed, failed, blocked, rejected, legal,
  validate_transition,
}

-- The flows of the module's documentation, and the block after the validation of an output, which
-- the table has besides.
infix 40 ◌⟶◌
pub data ◌⟶◌ : ExecutionState → ExecutionState → Type 0 where
  start : planning ⟶ executing
  check : executing ⟶ validating
  finish : validating ⟶ completed
  fail_planning : planning ⟶ failed
  fail_executing : executing ⟶ failed
  fail_validating : validating ⟶ failed
  block : executing ⟶ blocked
  block_output : validating ⟶ blocked
  reject : planning ⟶ rejected

ruleset flows = (
  start, check, finish, fail_planning, fail_executing, fail_validating, block, block_output, reject,
)

legal→⟶ : (s t : ExecutionState) → validate_transition s t ≡ legal → s ⟶ t
unfolding validate_transition
legal→⟶ planning t h = grind (arith, flows)
legal→⟶ executing t h = grind (arith, flows)
legal→⟶ validating t h = grind (arith, flows)
legal→⟶ s t h = ground arith

⟶→legal : {s t : ExecutionState} → s ⟶ t → validate_transition s t ≡ legal
unfolding validate_transition
⟶→legal start = refl
⟶→legal check = refl
⟶→legal finish = refl
⟶→legal fail_planning = refl
⟶→legal fail_executing = refl
⟶→legal fail_validating = refl
⟶→legal block = refl
⟶→legal block_output = refl
⟶→legal reject = refl

-- The check passes exactly on the nine flows of the relation.
pub validate_transition-legal_iff :
    (s t : ExecutionState) → (validate_transition s t ≡ legal) ↔ (s ⟶ t)
validate_transition-legal_iff s t = (legal→⟶ s t, ⟶→legal)

-- A run from `s` to `t`: the states that it enters, in order, each by a transition that is legal.
pub data Run : ExecutionState → List ExecutionState → ExecutionState → Type 0 where
  here : {s : ExecutionState} → Run s [] s
  enter :
      {s t u : ExecutionState} {path : List ExecutionState}
      → validate_transition s t ≡ legal
      → Run t path u
      → Run s (t ∷ path) u

-- How many transitions can still follow.
abbrev rank : ExecutionState → ℕ
rank planning = 3
rank executing = 2
rank validating = 1
rank _ = 0

rank_falls : {s t : ExecutionState} → s ⟶ t → suc (rank t) ≤ rank s
rank_falls start = omega arith
rank_falls check = omega arith
rank_falls finish = omega arith
rank_falls fail_planning = omega arith
rank_falls fail_executing = omega arith
rank_falls fail_validating = omega arith
rank_falls block = omega arith
rank_falls block_output = omega arith
rank_falls reject = omega arith

length-le-rank :
    {s u : ExecutionState} {path : List ExecutionState} → Run s path u → length path ≤ rank s
length-le-rank here = omega arith
length-le-rank (enter {s} {t} h r) = omega (arith, rank_falls (legal→⟶ s t h), length-le-rank r)

rank-le : (s : ExecutionState) → rank s ≤ 3
rank-le planning = omega arith
rank-le _ = omega arith

-- Every run, from any state to any state, makes at most three transitions.
pub Run-length :
    {s u : ExecutionState} {path : List ExecutionState} → Run s path u → length path ≤ 3
Run-length {s} r = omega (arith, length-le-rank r, rank-le s)

completed_from : ExecutionState → List ExecutionState
completed_from planning = executing ∷ validating ∷ completed ∷ []
completed_from executing = validating ∷ completed ∷ []
completed_from validating = completed ∷ []
completed_from _ = []

completed_from_step :
    {s t : ExecutionState} {path : List ExecutionState}
    → s ⟶ t
    → Run t path completed
    → path ≡ completed_from t
    → t ∷ path ≡ completed_from s
unfolding completed_from
completed_from_step start r e = ap (λ p. executing ∷ p) e
completed_from_step check r e = ap (λ p. validating ∷ p) e
completed_from_step finish r e = ap (λ p. completed ∷ p) e
completed_from_step fail_planning (enter h r) e = elim (legal→⟶ _ _ h) [ ]
completed_from_step fail_executing (enter h r) e = elim (legal→⟶ _ _ h) [ ]
completed_from_step fail_validating (enter h r) e = elim (legal→⟶ _ _ h) [ ]
completed_from_step block (enter h r) e = elim (legal→⟶ _ _ h) [ ]
completed_from_step block_output (enter h r) e = elim (legal→⟶ _ _ h) [ ]
completed_from_step reject (enter h r) e = elim (legal→⟶ _ _ h) [ ]

Run-completed_from :
    {s : ExecutionState} {path : List ExecutionState}
    → Run s path completed
    → path ≡ completed_from s
unfolding completed_from
Run-completed_from here = refl
Run-completed_from (enter {s} {t} h r) =
    completed_from_step (legal→⟶ s t h) r (Run-completed_from r)

-- A run from `planning` to `completed` enters `executing`, then `validating`, then `completed`, and
-- nothing else.
pub Run-completed :
    {path : List ExecutionState}
    → Run planning path completed
    → path ≡ executing ∷ validating ∷ completed ∷ []
unfolding completed_from
Run-completed r = Run-completed_from r
