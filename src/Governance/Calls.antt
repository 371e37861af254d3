-- ===== src/Governance/Calls.antt =====
-- api/repositories_paperclip.py: the statements that call the twelve functions of the governance
-- database, with their parameters.
use new_logistic.Prelude.{
  ℕ, ◌+◌, String, Bool, ◌≡◌, refl, Option, none, some, List, [], ◌∷◌, nat_eq, if◌then◌else◌, length,
}
use new_logistic.Prelude.Text.{codes, begins}
use new_logistic.Prelude.Json.{Json, Fields}
use new_logistic.Governance.{Uuid}

-- A call of one of the functions. A time is in microseconds, an amount its decimal text.
pub data Call : Type 0 where
  proposal :
      (agent policy : Uuid) (action target entity_type entity_id : String) (payload : Fields)
      (key : String) (expires_at : ℕ)
      → Call
  invariant : (proposal_id : Uuid) (code : String) (passed : Bool) → Call
  lock : (proposal_id : Uuid) (holder reason : String) → Call
  unlock : (proposal_id : Uuid) (holder : String) → Call
  decision : (proposal_id : Uuid) (approver : String) (approved : Bool) (expires_at : ℕ) → Call
  grant : (proposal_id : Uuid) → Call
  revocation : (grant_id : Uuid) (actor reason : String) → Call
  consumption :
      (grant_id agent : Uuid) (action target entity_type entity_id payload_hash : Json) → Call
  attempt :
      (grant_id agent : Uuid) (action target entity_type entity_id : Json)
      (fingerprint status : String)
      → Call
  heartbeat : (agent : Uuid) (task_id : Option Uuid) (run_key : String) → Call
  token_cost : (agent : Uuid) (heartbeat_id : Option Uuid) (cost : String) → Call
  loop_guard : (proposal_id : Uuid) → Call

-- A parameter of a statement.
pub data Param : Type 0 where
  text : String → Param
  value : Json → Param
  flag : Bool → Param
  jsonb : Fields → Param
  timestamp : ℕ → Param
  decimal : String → Param
  null_param : Param

abbrev id : Uuid → Param
id u = text u.text

-- `str(u) if u else None`
abbrev optional_id : Option Uuid → Param
optional_id none = null_param
optional_id (some u) = id u

-- The statement that a call executes, white space aside.
unfoldable pub sql : Call → String
sql (proposal _ _ _ _ _ _ _ _ _) =
    "SELECT * FROM paperclip.create_proposal(%s, %s, %s, %s, %s, %s, %s::jsonb, %s, %s)"
sql (invariant _ _ _) = "SELECT * FROM paperclip.record_invariant(%s, %s, %s)"
sql (lock _ _ _) = "SELECT * FROM paperclip.acquire_decision_lock(%s, %s, %s)"
sql (unlock _ _) = "SELECT * FROM paperclip.release_decision_lock(%s, %s)"
sql (decision _ _ _ _) = "SELECT * FROM paperclip.decide(%s, %s, %s, %s)"
sql (grant _) = "SELECT * FROM paperclip.issue_grant(%s)"
sql (revocation _ _ _) = "SELECT * FROM paperclip.revoke_grant(%s, %s, %s)"
sql (consumption _ _ _ _ _ _ _) =
    "SELECT * FROM paperclip.consume_grant(%s, %s, %s, %s, %s, %s, %s)"
sql (attempt _ _ _ _ _ _ _ _) =
    "SELECT * FROM paperclip.record_execution_attempt(%s, %s, %s, %s, %s, %s, %s, %s)"
sql (heartbeat _ _ _) = "SELECT * FROM paperclip.record_heartbeat(%s, %s, %s)"
sql (token_cost _ _ _) = "SELECT * FROM paperclip.record_token_cost(%s, %s, %s)"
sql (loop_guard _) = "SELECT * FROM paperclip.evaluate_loop_guard(%s)"

-- The parameters of that statement.
unfoldable pub params : Call → List Param
params (proposal agent policy action target type entity payload key expires) =
    id agent
    ∷ id policy
    ∷ text action
    ∷ text target
    ∷ text type
    ∷ text entity
    ∷ jsonb payload
    ∷ text key
    ∷ timestamp expires
    ∷ []
params (invariant p code passed) = id p ∷ text code ∷ flag passed ∷ []
params (lock p holder reason) = id p ∷ text holder ∷ text reason ∷ []
params (unlock p holder) = id p ∷ text holder ∷ []
params (decision p approver approved expires) =
    id p ∷ text approver ∷ flag approved ∷ timestamp expires ∷ []
params (grant p) = id p ∷ []
params (revocation g actor reason) = id g ∷ text actor ∷ text reason ∷ []
params (consumption g agent action target type entity hash) =
    id g ∷ id agent ∷ value action ∷ value target ∷ value type ∷ value entity ∷ value hash ∷ []
params (attempt g agent action target type entity fingerprint status) =
    id g
    ∷ id agent
    ∷ value action
    ∷ value target
    ∷ value type
    ∷ value entity
    ∷ text fingerprint
    ∷ text status
    ∷ []
params (heartbeat agent task run_key) = id agent ∷ optional_id task ∷ text run_key ∷ []
params (token_cost agent beat cost) = id agent ∷ optional_id beat ∷ decimal cost ∷ []
params (loop_guard p) = id p ∷ []

-- How many `%s` the text has.
unfoldable pub placeholders : List ℕ → ℕ
placeholders [] = 0
placeholders (c ∷ s) = (if begins (codes "%s") (c ∷ s) then 1 else 0) + placeholders s

-- Each statement has as many parameters as its text has places for.
pub sql-params : (c : Call) → placeholders (codes (sql c)) ≡ length (params c)
unfolding sql params placeholders
sql-params (proposal _ _ _ _ _ _ _ _ _) = refl
sql-params (invariant _ _ _) = refl
sql-params (lock _ _ _) = refl
sql-params (unlock _ _) = refl
sql-params (decision _ _ _ _) = refl
sql-params (grant _) = refl
sql-params (revocation _ _ _) = refl
sql-params (consumption _ _ _ _ _ _ _) = refl
sql-params (attempt _ _ _ _ _ _ _ _) = refl
sql-params (heartbeat _ _ _) = refl
sql-params (token_cost _ _ _) = refl
sql-params (loop_guard _) = refl
