-- ===== src/Governance/Executor.antt =====
-- api/services/synthetic_executor.py: a grant is consumed, and then its execution is recorded.
pub mod Order
use new_logistic.Prelude.{String, concat, Bool, true, false, Option, none, some, if◌then◌else◌}
use new_logistic.Prelude.Json.{Json, text?}
use new_logistic.Governance.{Uuid, Library}
use new_logistic.Governance.Envelope.{type_error}
use new_logistic.Governance.Repository.{
  Database, GovernanceResult, denied, raised, Act, pure, refuse, guard, ◌>>=◌, consume_grant,
  record_execution_attempt,
}

module _ (python : Library) where
  abbrev pub digest_of : Uuid → Option String → Act String
  digest_of g none = refuse (raised type_error)
  digest_of g (some h) = pure (python.sha256 (concat g.text (concat ":synthetic-complete:" h)))

module _ (python : Library) (answer : Database) where
  -- The digest of the grant and of the payload's hash, which must be a text.
  abbrev pub fingerprint : Uuid → Json → Act String
  fingerprint g hash = digest_of python g (text? hash)

  -- After a grant was consumed.
  unfoldable pub record_completion :
      (tenant g agent : Uuid) (action target type entity hash : Json) → Act GovernanceResult
  record_completion tenant g agent action target type entity hash = do
    print ← fingerprint g hash
    attempt ←
        record_execution_attempt python answer tenant g agent action target type entity print
          "SUCCEEDED"
    guard attempt.allowed (denied attempt.reason_code) (
        pure (record {
          allowed = true;
          reason_code = "SYNTHETIC_EXECUTION_RECORDED";
          governance_id = some g;
        }))

  unfoldable pub execute :
      (tenant g agent : Uuid) (action target type entity hash : Json) → Act GovernanceResult
  unfolding record_completion
  execute tenant g agent action target type entity hash = do
    consume ← consume_grant python answer tenant g agent action target type entity hash
    guard consume.allowed (denied consume.reason_code)
        (record_completion tenant g agent action target type entity hash)
