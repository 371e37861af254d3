-- ===== src/Governance/Authority.antt =====
-- api/services/paperclip.py: for whom the service calls which function of the governance database.
pub mod Sends
pub mod Permitted
pub mod Duties
use new_logistic.Prelude.{
  ℕ, String, Bool, true, false, ◌≡◌, refl, sym, ap, ◌∙◌, subst, Option, none, some, List, [], ◌∷◌,
  ◌++◌, ◌&&◌, ◌==◌, string_eq, elem, All, if◌then◌else◌, Bool-cases, Option-cases, inl, inr, arith,
}
use new_logistic.Prelude.Dict.{lookup}
use new_logistic.Governance.{Uuid, Library, uuid_eq}
use new_logistic.Governance.Calls.{
  Call, proposal, invariant, lock, unlock, decision, grant, revocation, consumption, attempt,
  heartbeat, token_cost, loop_guard,
}
use new_logistic.Governance.Envelope.{SignedEnvelope, Checked, fails, passes}
use new_logistic.Governance.Repository.{
  Database, Sent, Act, Outcome, done, refused, Refusal, pure, refuse, guard, ◌>>=◌, continue,
  transact, execute, Reply, failed, fetched,
}
use new_logistic.Governance.Service.{Service, Caller, has_agent, resolve_agent}
use new_logistic.Governance.Methods as Methods
use new_logistic.Governance.Methods.{Action}

-- A request of a caller, one for each method.
pub data Operation : Type 0 where
  create_proposal : Action → String → ℕ → Operation
  issue_proposal_envelope : Uuid → Action → ℕ → String → Operation
  record_invariant : Uuid → String → Bool → Operation
  acquire_decision_lock : Uuid → String → Operation
  release_decision_lock : Uuid → Operation
  decide : Uuid → Bool → ℕ → Operation
  issue_grant : Uuid → Operation
  issue_grant_envelope : (proposal_id grant_id : Uuid) → Action → ℕ → String → Operation
  revoke_grant : Uuid → String → Operation
  consume_grant : String → Option Uuid → ℕ → Operation
  record_execution_attempt : String → (fingerprint status : String) → Option Uuid → ℕ → Operation
  record_heartbeat : Option Uuid → String → Operation
  record_token_cost : Option Uuid → String → Operation
  evaluate_loop_guard : Uuid → Operation

abbrev pub void : {A : Type 0} → Act A → Act (Unit {0})
void m = m >>= λ _. pure tt

module _ (service : Service) (python : Library) (answer : Database) where
  -- The method of an operation; what it returns is dropped.
  unfoldable pub perform : Operation → Caller → Act (Unit {0})
  perform (create_proposal a key expires) c =
      void (Methods.create_proposal service python answer c a key expires)
  perform (issue_proposal_envelope p a now nonce) c =
      void (Methods.issue_proposal_envelope service python answer c p a now nonce)
  perform (record_invariant p code passed) c =
      Methods.record_invariant service python answer c p code passed
  perform (acquire_decision_lock p reason) c =
      void (Methods.acquire_decision_lock service python answer c p reason)
  perform (release_decision_lock p) c =
      void (Methods.release_decision_lock service python answer c p)
  perform (decide p approved expires) c =
      void (Methods.decide service python answer c p approved expires)
  perform (issue_grant p) c = void (Methods.issue_grant service python answer c p)
  perform (issue_grant_envelope p g a now nonce) c =
      void (Methods.issue_grant_envelope service python answer c p g a now nonce)
  perform (revoke_grant g reason) c = void (Methods.revoke_grant service python answer c g reason)
  perform (consume_grant token g now) c =
      void (Methods.consume_grant service python answer c token g now)
  perform (record_execution_attempt token print status g now) c =
      void (Methods.record_execution_attempt service python answer c token print status g now)
  perform (record_heartbeat task key) c =
      void (Methods.record_heartbeat service python answer c task key)
  perform (record_token_cost beat cost) c =
      void (Methods.record_token_cost service python answer c beat cost)
  perform (evaluate_loop_guard p) c = void (Methods.evaluate_loop_guard service python answer c p)

abbrev pub is_it : Option Uuid → Uuid → Bool
is_it none agent = false
is_it (some u) agent = u == agent

abbrev is_agent : Service → Caller → Uuid → Bool
is_agent service c = is_it (lookup c.subject service.settings.agent_bindings)

abbrev is_admin : Caller → Bool
is_admin c = elem "admin" c.roles

abbrev is_executor : Service → Caller → Uuid → Bool
is_executor service c agent =
    c.subject == service.settings.executor_subject
    && has_agent agent service.settings.agent_bindings

-- Who may have a call made: an agent for itself, an admin in the own name, the owner who is an admin
-- for a decision, the executor for a bound agent.
unfoldable pub permits : Service → Caller → Call → Bool
permits service c (proposal agent policy _ _ _ _ _ _ _) =
    is_agent service c agent && policy == service.policy
permits service c (invariant _ _ _) = is_admin c
permits service c (lock _ holder _) = is_admin c && holder == c.subject
permits service c (unlock _ holder) = is_admin c && holder == c.subject
permits service c (decision _ approver _ _) =
    is_admin c && c.subject == service.settings.owner_subject && approver == c.subject
permits service c (grant _) = is_admin c
permits service c (revocation _ actor _) = is_admin c && actor == c.subject
permits service c (consumption _ agent _ _ _ _ _) = is_executor service c agent
permits service c (attempt _ agent _ _ _ _ _ _) = is_executor service c agent
permits service c (heartbeat agent _ _) = is_agent service c agent
permits service c (token_cost agent _ _) = is_agent service c agent
permits service c (loop_guard _) = is_admin c

-- A transaction for the platform, with a call that the caller may have made.
abbrev pub is_permitted : Service → Caller → Sent → Bool
is_permitted service c s = s.tenant == service.settings.platform_id && permits service c s.call
