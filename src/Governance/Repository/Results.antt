-- ===== src/Governance/Repository/Results.antt =====
-- api/repositories_paperclip.py: what `_to_result` lets through.
use new_logistic.Prelude.{
  String, Bool, true, false, not, Option, none, some, ◌&&◌, ◌||◌, ◌==◌, string_eq, elem,
  if◌then◌else◌,
}
use new_logistic.Prelude.Dict.{Dict}
use new_logistic.Governance.{Uuid}
use new_logistic.Governance.Repository.{GovernanceResult, successes, denials}

abbrev pub has_id : Option Uuid → Bool
has_id none = false
has_id (some u) = true

-- A reason that is known for the answer, and an id where the answer allows something that has one.
abbrev pub is_result : GovernanceResult → Bool
is_result r =
    elem r.reason_code (if r.allowed then successes else denials)
    && (not r.allowed
        || r.reason_code == "EXECUTION_ATTEMPT_DUPLICATE"
        || r.reason_code == "HEARTBEAT_DUPLICATE"
        || has_id r.governance_id)

-- A result with no id.
abbrev bare : Bool → String → GovernanceResult
bare allowed reason = record { allowed = allowed; reason_code = reason; governance_id = none }
