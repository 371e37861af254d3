-- ===== src/Governance/Methods.antt =====
-- api/services/paperclip.py: the methods of the service. The times and the nonces that envelopes need
-- are arguments.
pub mod Executed
use new_logistic.Prelude.{ℕ, String, Bool, Option, none, some, ◌&&◌, ◌==◌}
use new_logistic.Prelude.Json.{Fields}
use new_logistic.Governance.{Uuid, Library, uuid_eq}
use new_logistic.Governance.Envelope.{SignedEnvelope, Checked, fails, passes}
use new_logistic.Governance.Signer.{Request, issue, verify_string}
use new_logistic.Governance.Repository.{
  Database, GovernanceResult, Outcome, denied, raised, done, refused, Act, pure, refuse, guard,
  ◌>>=◌,
}
use new_logistic.Governance.Repository as Repository
use new_logistic.Governance.Executor as Executor
use new_logistic.Governance.Payload.{payload_hash}
use new_logistic.Governance.Service.{
  Service, Caller, has_agent, resolve_agent, require_admin, require_owner, require_executor,
}

-- What an envelope is issued for.
pub record Action : Type 0 where
  pub action : String
  pub target_system : String
  pub entity_type : String
  pub entity_id : String
  pub payload : Fields

-- An envelope that was issued or verified, or the failure that is raised.
abbrev pub checked : Checked → Act SignedEnvelope
checked (fails reason) = refuse (raised reason)
checked (passes e) = pure e

-- The hash of a payload, or the refusal to make it.
abbrev pub hashed : Outcome String → (String → Act SignedEnvelope) → Act SignedEnvelope
hashed (refused reason) k = refuse reason
hashed (done hash) k = k hash

abbrev pub with_grant : Option Uuid → (Uuid → Act GovernanceResult) → Act GovernanceResult
with_grant none k = refuse (denied "ENVELOPE_GRANT_MISSING")
with_grant (some g) k = k g

module _ (service : Service) (python : Library) (answer : Database) where
  abbrev pub create_proposal : Caller → Action → String → ℕ → Act GovernanceResult
  create_proposal caller a key expires_at = resolve_agent service caller (λ agent.
      Repository.create_proposal python answer service.settings.platform_id agent service.policy
        a.action a.target_system a.entity_type a.entity_id a.payload key expires_at)

  -- An envelope for the subject, at the time `now` and with the nonce of `secrets`.
  abbrev pub issue_for :
      String
      → Uuid
      → (proposal_id grant_id : Option Uuid) → Action
      → String
      → ℕ
      → String
      → Act SignedEnvelope
  issue_for subject agent proposal_id grant_id a purpose now nonce =
      hashed (payload_hash python a.payload) (λ hash. checked (
        issue python service.signer
          (record {
            tenant_id = service.settings.platform_id;
            subject = subject;
            agent_id = agent;
            policy_id = service.policy;
            proposal_id = proposal_id;
            grant_id = grant_id;
            action = a.action;
            target_system = a.target_system;
            entity_type = a.entity_type;
            entity_id = a.entity_id;
            payload_hash = hash;
          })
          purpose service.settings.envelope_ttl_seconds now nonce))

  abbrev pub issue_proposal_envelope : Caller → Uuid → Action → ℕ → String → Act SignedEnvelope
  issue_proposal_envelope caller proposal_id a now nonce =
      resolve_agent service caller
        (λ agent. issue_for caller.subject agent (some proposal_id) none a "proposal" now nonce)

  abbrev pub record_invariant : Caller → Uuid → String → Bool → Act (Unit {0})
  record_invariant caller proposal_id code passed = require_admin service caller (
      Repository.record_invariant python answer service.settings.platform_id proposal_id code
        passed)

  abbrev pub acquire_decision_lock : Caller → Uuid → String → Act GovernanceResult
  acquire_decision_lock caller proposal_id reason = require_admin service caller (
      Repository.acquire_decision_lock python answer service.settings.platform_id proposal_id
        caller.subject reason)

  abbrev pub release_decision_lock : Caller → Uuid → Act GovernanceResult
  release_decision_lock caller proposal_id = require_admin service caller (
      Repository.release_decision_lock python answer service.settings.platform_id proposal_id
        caller.subject)

  abbrev pub decide : Caller → Uuid → Bool → ℕ → Act GovernanceResult
  decide caller proposal_id approved expires_at = require_owner service caller (
      Repository.decide python answer service.settings.platform_id proposal_id caller.subject
        approved expires_at)

  abbrev pub issue_grant : Caller → Uuid → Act GovernanceResult
  issue_grant caller proposal_id =
      require_admin service caller
        (Repository.issue_grant python answer service.settings.platform_id proposal_id)

  abbrev pub issue_grant_envelope :
      Caller → (proposal_id grant_id : Uuid) → Action → ℕ → String → Act SignedEnvelope
  issue_grant_envelope caller proposal_id grant_id a now nonce =
      resolve_agent service caller (λ agent.
        issue_for service.settings.executor_subject agent (some proposal_id) (some grant_id) a
          "grant" now nonce)

  abbrev pub revoke_grant : Caller → Uuid → String → Act GovernanceResult
  revoke_grant caller grant_id reason = require_admin service caller (
      Repository.revoke_grant python answer service.settings.platform_id grant_id caller.subject
        reason)

  -- The envelope of a grant, verified at the time `now`, and the grant that it is of.
  unfoldable pub with_envelope :
      Caller
      → String
      → Option Uuid
      → ℕ
      → (SignedEnvelope → Uuid → Act GovernanceResult)
      → Act GovernanceResult
  with_envelope caller token grant_id now k = require_executor service caller (do
    e ← checked (
        verify_string python service.signer now token (record {
          purpose = some "grant";
          subject = some caller.subject;
          tenant_id = some service.settings.platform_id;
          agent_id = none;
          proposal_id = none;
          grant_id = grant_id;
        }))
    guard (e.policy_id == service.policy && has_agent e.agent_id service.settings.agent_bindings)
        (denied "ENVELOPE_MAPPING_MISMATCH") (with_grant e.grant_id (k e)))

  unfoldable pub consume_grant : Caller → String → Option Uuid → ℕ → Act GovernanceResult
  unfolding with_envelope
  consume_grant caller token grant_id now = with_envelope caller token grant_id now (λ e g.
      Executor.execute python answer e.tenant_id g e.agent_id e.action e.target_system e.entity_type
        e.entity_id e.payload_hash)

  unfoldable pub record_execution_attempt :
      Caller → String → (fingerprint status : String) → Option Uuid → ℕ → Act GovernanceResult
  unfolding with_envelope
  record_execution_attempt caller token fingerprint status grant_id now =
      with_envelope caller token grant_id now (λ e g.
        Repository.record_execution_attempt python answer e.tenant_id g e.agent_id e.action
          e.target_system e.entity_type e.entity_id fingerprint status)

  abbrev pub record_heartbeat : Caller → Option Uuid → String → Act GovernanceResult
  record_heartbeat caller task_id run_key = resolve_agent service caller (λ agent.
      Repository.record_heartbeat python answer service.settings.platform_id agent task_id run_key)

  abbrev pub record_token_cost : Caller → Option Uuid → String → Act GovernanceResult
  record_token_cost caller heartbeat_id cost = resolve_agent service caller (λ agent.
      Repository.record_token_cost python answer service.settings.platform_id agent heartbeat_id
        cost)

  abbrev pub evaluate_loop_guard : Caller → Uuid → Act GovernanceResult
  evaluate_loop_guard caller proposal_id =
      require_admin service caller
        (Repository.evaluate_loop_guard python answer service.settings.platform_id proposal_id)
