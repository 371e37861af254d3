-- ===== src/Agent/State.antt =====
-- workers/src/zippy_workers/state_machine.py: the states of one execution and its legal transitions.
pub mod Runs
use new_logistic.Prelude.{Bool, true, false, List, [], ◌∷◌, ◌||◌, if◌then◌else◌}

pub data ExecutionState : Type 0 where
  planning executing validating completed failed blocked rejected : ExecutionState

-- The position of a state in the enumeration.
abbrev pub same_state : ExecutionState → ExecutionState → Bool
same_state planning planning = true
same_state executing executing = true
same_state validating validating = true
same_state completed completed = true
same_state failed failed = true
same_state blocked blocked = true
same_state rejected rejected = true
same_state _ _ = false

-- `_TRANSITIONS`; the order inside a set says nothing.
pub transitions : ExecutionState → List ExecutionState
transitions planning = executing ∷ failed ∷ rejected ∷ []
transitions executing = validating ∷ failed ∷ blocked ∷ []
transitions validating = completed ∷ failed ∷ blocked ∷ []
transitions completed = []
transitions failed = []
transitions blocked = []
transitions rejected = []

-- `nxt in allowed`
abbrev pub is_member : ExecutionState → List ExecutionState → Bool
is_member s [] = false
is_member s (t ∷ ts) = same_state s t || is_member s ts

-- A call returns, or raises `IllegalTransition(current, nxt)`.
pub data Checked : Type 0 where
  legal : Checked
  illegal_transition : ExecutionState → ExecutionState → Checked

unfoldable pub validate_transition : ExecutionState → ExecutionState → Checked
unfolding transitions
validate_transition current nxt =
    if is_member nxt (transitions current) then legal else illegal_transition current nxt
