-- ===== src/Governance/Repository.antt =====
-- api/repositories_paperclip.py: the governance database and its results. The database is a port:
-- `answer` gives what the next transaction gets, from those made before, and the state is the list of
-- the transactions.
pub mod Results
use new_logistic.Prelude.{
  ℕ, String, Bool, true, false, not, Option, none, some, List, [], ◌∷◌, ◌++◌, ◌&&◌, ◌||◌, ◌==◌,
  string_eq, if◌then◌else◌, elem, map,
}
use new_logistic.Prelude.Dict.{Dict, lookup}
use new_logistic.Prelude.Json.{Json, Fields}
use new_logistic.Governance.{Uuid, Library}
use new_logistic.Governance.Envelope.{Failure}
use new_logistic.Governance.Calls.{
  Call, proposal, invariant, lock, unlock, decision, grant, revocation, consumption, attempt,
  heartbeat, token_cost, loop_guard,
}

-- A cell of a row that the driver makes; `other` is any other value, by its `str(...)`.
pub data Cell : Type 0 where
  empty : Cell
  boolean : Bool → Cell
  textual : String → Cell
  identity : Uuid → Cell
  other : String → Cell

-- A transaction for a tenant, with the call made in it.
pub record Sent : Type 0 where
  pub tenant : Uuid
  pub call : Call

-- The driver raises its `Error`, or the cursor has a first row or none.
pub data Reply : Type 0 where
  failed : Reply
  fetched : Option (Dict Cell) → Reply

abbrev pub Database : Type 0
Database = List Sent → Sent → Reply

pub record GovernanceResult : Type 0 where
  pub allowed : Bool
  pub reason_code : String
  pub governance_id : Option Uuid

-- `GovernanceDenied`, `ForbiddenError`, or a failure that the envelopes have too.
pub data Refusal : Type 0 where
  denied : String → Refusal
  forbidden : String → Refusal
  raised : Failure → Refusal

pub data Outcome (A : Type 0) : Type 0 where
  done : A → Outcome A
  refused : Refusal → Outcome A

-- What is done with the database: its outcome and the transactions, from those made before.
abbrev pub Act : Type 0 → Type 0
Act A = List Sent → Outcome A × List Sent

abbrev pub pure : {A : Type 0} → A → Act A
pure a log = (done a, log)

abbrev pub refuse : {A : Type 0} → Refusal → Act A
refuse reason log = (refused reason, log)

abbrev pub continue : {A B : Type 0} → Outcome A × List Sent → (A → Act B) → Outcome B × List Sent
continue (done a, log) k = k a log
continue (refused reason, log) k = (refused reason, log)

infixl 5 ◌>>=◌
abbrev pub ◌>>=◌ : {A B : Type 0} → Act A → (A → Act B) → Act B
m >>= k = λ log. continue (m log) k

-- A guard that raises, and then the rest.
abbrev pub guard : {A : Type 0} → Bool → Refusal → Act A → Act A
guard b reason rest = if b then rest else refuse reason

abbrev pub successes : List String
successes =
    "PROPOSAL_EXISTS" ∷ "PROPOSAL_CREATED" ∷ "DECISION_LOCK_ACQUIRED" ∷ "DECISION_LOCK_RELEASED"
    ∷ "APPROVED" ∷ "REJECTED" ∷ "GRANT_ISSUED" ∷ "GRANT_REVOKED" ∷ "GRANT_CONSUMED"
    ∷ "EXECUTION_ATTEMPT_DUPLICATE" ∷ "EXECUTION_ATTEMPT_RECORDED" ∷ "HEARTBEAT_DUPLICATE"
    ∷ "HEARTBEAT_RECORDED" ∷ "TOKEN_COST_RECORDED" ∷ "LOOP_GUARD_CLEAR" ∷ []

abbrev pub denials : List String
denials =
    "AGENT_INACTIVE" ∷ "POLICY_INACTIVE_OR_CHECKSUM_MISMATCH" ∷ "LOOP_GUARD_TRIGGERED"
    ∷ "PROPOSAL_NOT_FOUND" ∷ "DECISION_LOCK_ACTIVE" ∷ "DECISION_LOCK_NOT_HELD"
    ∷ "DECISION_ALREADY_RECORDED" ∷ "SELF_APPROVAL_DENIED" ∷ "GRANT_ALREADY_ISSUED"
    ∷ "INVARIANT_FAILED" ∷ "AGENT_INACTIVE_OR_BUDGET_EXHAUSTED"
    ∷ "APPROVAL_MISSING_REJECTED_OR_EXPIRED" ∷ "GRANT_REVOCATION_INVALID"
    ∷ "EXECUTION_ATTEMPT_MISMATCH" ∷ "GRANT_CONSUMPTION_DENIED" ∷ "HEARTBEAT_DENIED"
    ∷ "AGENT_NOT_FOUND" ∷ "BUDGET_EXCEEDED" ∷ []

-- `str(cell)`
abbrev text_of : Cell → String
text_of empty = "None"
text_of (boolean true) = "True"
text_of (boolean false) = "False"
text_of (textual s) = s
text_of (identity u) = u.text
text_of (other s) = s

abbrev has_key : String → Dict Cell → Bool
has_key k row = elem k (map (λ e. e.0) row)

-- `set(row) == {"allowed", "reason_code", "governance_id"}`
abbrev pub has_columns : Dict Cell → Bool
has_columns row =
    has_key "allowed" row
    && has_key "reason_code" row
    && has_key "governance_id" row
    && all_known row
  where
    all_known : Dict Cell → Bool
    all_known [] = true
    all_known ((k, _) ∷ row) =
        (k == "allowed" || k == "reason_code" || k == "governance_id") && all_known row

-- A value of a row that has it.
abbrev pub column : String → Dict Cell → Cell
column k row = elim (lookup k row) [ none ↦ empty | some c ↦ c ]

abbrev pub reason_in : Cell → List String → Option String
reason_in (textual s) known = if elem s known then some s else none
reason_in _ known = none

module _ (python : Library) where
  -- `UUID(str(identifier)) if identifier is not None else None`
  abbrev pub identifier_of : Cell → Option (Option Uuid)
  identifier_of empty = some none
  identifier_of c = elim (python.uuid (text_of c)) [ none ↦ none | some u ↦ some (some u) ]

  -- The result of a row whose `allowed` is a truth value and whose reason is known.
  abbrev pub result_of : Bool → String → Option (Option Uuid) → Outcome GovernanceResult
  result_of allowed reason none = refused (denied "GOVERNANCE_RESULT_INVALID")
  result_of allowed reason (some none) =
      if allowed && not (reason == "EXECUTION_ATTEMPT_DUPLICATE" || reason == "HEARTBEAT_DUPLICATE")
      then refused (denied "GOVERNANCE_RESULT_INVALID")
      else done (record { allowed = allowed; reason_code = reason; governance_id = none })
  result_of allowed reason (some (some u)) =
      done (record { allowed = allowed; reason_code = reason; governance_id = some u })

  abbrev pub with_reason : Bool → Option String → Cell → Outcome GovernanceResult
  with_reason allowed none identifier = refused (denied "GOVERNANCE_RESULT_UNKNOWN")
  with_reason allowed (some reason) identifier = result_of allowed reason (identifier_of identifier)

  abbrev pub known_result : Cell → Cell → Cell → Outcome GovernanceResult
  known_result (boolean allowed) reason identifier =
      with_reason allowed (reason_in reason (if allowed then successes else denials)) identifier
  known_result _ reason identifier = refused (denied "GOVERNANCE_RESULT_UNKNOWN")

  unfoldable pub to_result : Option (Dict Cell) → Outcome GovernanceResult
  to_result none = refused (denied "GOVERNANCE_RESULT_MISSING")
  to_result (some row) =
      if has_columns row
      then known_result (column "allowed" row) (column "reason_code" row)
          (column "governance_id" row)
      else refused (denied "GOVERNANCE_RESULT_MISSING")

abbrev pub rows_of : Reply → Outcome (Option (Dict Cell))
rows_of failed = refused (denied "GOVERNANCE_DATABASE_UNAVAILABLE")
rows_of (fetched row) = done row

module _ (answer : Database) where
  -- `_call` with one statement: the rows, or the database's error as a denial.
  unfoldable pub transact : Uuid → Call → Act (Option (Dict Cell))
  transact tenant call log =
      let s : Sent = record { tenant = tenant; call = call } in
      (rows_of (answer log s), log ++ s ∷ [])

module _ (python : Library) (answer : Database) where
  -- A function of the database whose row is a result.
  unfoldable pub execute : Uuid → Call → Act GovernanceResult
  execute tenant call = do row ← transact answer tenant call; λ log. (to_result python row, log)

  abbrev pub create_proposal :
      (tenant agent policy : Uuid) (action target type entity : String) (payload : Fields)
      (key : String) (expires_at : ℕ)
      → Act GovernanceResult
  create_proposal tenant agent policy action target type entity payload key expires_at =
      execute tenant (proposal agent policy action target type entity payload key expires_at)

  -- The row is not looked at.
  abbrev pub record_invariant : (tenant p : Uuid) (code : String) (passed : Bool) → Act (Unit {0})
  record_invariant tenant p code passed = do
    _ ← transact answer tenant (invariant p code passed)
    pure tt

  abbrev pub acquire_decision_lock :
      (tenant p : Uuid) (holder reason : String) → Act GovernanceResult
  acquire_decision_lock tenant p holder reason = execute tenant (lock p holder reason)

  abbrev pub release_decision_lock : (tenant p : Uuid) (holder : String) → Act GovernanceResult
  release_decision_lock tenant p holder = execute tenant (unlock p holder)

  abbrev pub decide :
      (tenant p : Uuid) (approver : String) (approved : Bool) (expires_at : ℕ)
      → Act GovernanceResult
  decide tenant p approver approved expires_at =
      execute tenant (decision p approver approved expires_at)

  abbrev pub issue_grant : (tenant p : Uuid) → Act GovernanceResult
  issue_grant tenant p = execute tenant (grant p)

  abbrev pub revoke_grant : (tenant g : Uuid) (actor reason : String) → Act GovernanceResult
  revoke_grant tenant g actor reason = execute tenant (revocation g actor reason)

  abbrev pub consume_grant :
      (tenant g agent : Uuid) (action target type entity hash : Json) → Act GovernanceResult
  consume_grant tenant g agent action target type entity hash =
      execute tenant (consumption g agent action target type entity hash)

  abbrev pub record_execution_attempt :
      (tenant g agent : Uuid) (action target type entity : Json) (fingerprint status : String)
      → Act GovernanceResult
  record_execution_attempt tenant g agent action target type entity fingerprint status =
      execute tenant (attempt g agent action target type entity fingerprint status)

  abbrev pub record_heartbeat :
      (tenant agent : Uuid) (task : Option Uuid) (run_key : String) → Act GovernanceResult
  record_heartbeat tenant agent task run_key = execute tenant (heartbeat agent task run_key)

  abbrev pub record_token_cost :
      (tenant agent : Uuid) (beat : Option Uuid) (cost : String) → Act GovernanceResult
  record_token_cost tenant agent beat cost = execute tenant (token_cost agent beat cost)

  abbrev pub evaluate_loop_guard : (tenant p : Uuid) → Act GovernanceResult
  evaluate_loop_guard tenant p = execute tenant (loop_guard p)
