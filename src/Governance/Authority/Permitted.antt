-- ===== src/Governance/Authority/Permitted.antt =====
-- api/services/paperclip.py: every call that a method makes is one that its caller may have made.
use new_logistic.Prelude.{
  ℕ, String, true, ◌≡◌, refl, subst, sym, ap, ◌∙◌, concat, Option, none, some, ◌&&◌, ◌==◌,
  string_eq, elem, arith, eq_refl,
}
use new_logistic.Prelude.Dict.{lookup}
use new_logistic.Prelude.Json.{Json, text?}
use new_logistic.Governance.Payload.{payload_hash}
use new_logistic.Governance.{Uuid, Library, uuid_eq}
use new_logistic.Governance.Calls.{
  Call, proposal, invariant, lock, unlock, decision, grant, revocation, consumption, attempt,
  heartbeat, token_cost, loop_guard,
}
use new_logistic.Governance.Envelope.{type_error, SignedEnvelope}
use new_logistic.Governance.Signer.{Bindings, verify_string}
use new_logistic.Governance.Envelope.Verified.{verify_string-matches}
use new_logistic.Governance.Repository.{
  Database, Sent, Act, GovernanceResult, denied, forbidden, raised, pure, transact, execute,
}
use new_logistic.Governance.Service.{Service, Caller, has_agent, require_admin, resolve_agent}
use new_logistic.Governance.Methods as Methods
use new_logistic.Governance.Methods.{Action, with_envelope, issue_for}
use new_logistic.Governance.Executor as Executor
use new_logistic.Governance.Authority.{Operation, perform, void, permits, is_it, is_permitted}
use new_logistic.Governance.Authority.Sends.{
  Adds, pure-Adds, refuse-Adds, guard-Adds, resolve_agent-Adds, bind-Adds, transact-Adds,
  execute-Adds, checked-Adds, checked_only-Adds, hashed-Adds, with_grant-Adds,
}

module _ (service : Service) (python : Library) (answer : Database) (c : Caller) where
  -- The transaction is permitted.
  abbrev Fits : Sent → Type 0
  Fits s = is_permitted service c s ≡ true

  Fits-permits :
      (call : Call)
      → permits service c call ≡ true
      → Fits (record { tenant = service.settings.platform_id; call = call })
  Fits-permits call h = rw (eq_refl service.settings.platform_id.text) h

  asks :
      (call : Call)
      → permits service c call ≡ true
      → Adds Fits (execute python answer service.settings.platform_id call)
  asks call h = execute-Adds python answer service.settings.platform_id call (Fits-permits call h)

  void-Adds : {A : Type 0} (m : Act A) → Adds Fits m → Adds Fits (void m)
  void-Adds m h = bind-Adds m (λ a. pure tt) h (λ a. pure-Adds tt)

  -- A method that an admin may call, with one call of the database.
  admin-Adds :
      {A : Type 0} (m : Act A)
      → (elem "admin" c.roles ≡ true → Adds Fits m)
      → Adds Fits (require_admin service c m)
  admin-Adds m h = guard-Adds (elem "admin" c.roles) (forbidden "Admin role is required") m h

  admin-asks :
      (call : Call)
      → (elem "admin" c.roles ≡ true → permits service c call ≡ true)
      → Adds Fits
          (void (require_admin service c (execute python answer service.settings.platform_id call)))
  admin-asks call h =
      let ask = execute python answer service.settings.platform_id call in
      void-Adds (require_admin service c ask) (admin-Adds ask (λ admin. asks call (h admin)))

  bound_agent :
      (agent : Uuid)
      → lookup c.subject service.settings.agent_bindings ≡ some agent
      → is_it (lookup c.subject service.settings.agent_bindings) agent ≡ true
  bound_agent agent e = ap (λ o. is_it o agent) e ∙ eq_refl agent.text

  agent-asks :
      (f : Uuid → Call)
      → ((agent : Uuid)
          → lookup c.subject service.settings.agent_bindings ≡ some agent
          → permits service c (f agent) ≡ true)
      → Adds Fits (
          void (
            resolve_agent service c
              (λ agent. execute python answer service.settings.platform_id (f agent))))
  agent-asks f h =
      let ask = λ (agent : Uuid). execute python answer service.settings.platform_id (f agent) in
      void-Adds (resolve_agent service c ask)
        (resolve_agent-Adds service c ask (λ agent e. asks (f agent) (h agent e)))

  -- Issuing an envelope calls nothing.
  issue_for-Adds :
      (subject : String) (agent : Uuid) (p g : Option Uuid) (a : Action) (purpose : String)
      (now : ℕ) (nonce : String)
      → Adds Fits (issue_for service python answer subject agent p g a purpose now nonce)
  issue_for-Adds subject agent p g a purpose now nonce =
      hashed-Adds (payload_hash python a.payload) _ (λ hash. checked_only-Adds _)

  -- What the methods of the executor ask of an envelope.
  abbrev wanted_by : Option Uuid → Bindings
  wanted_by grant_id = record {
    purpose = some "grant";
    subject = some c.subject;
    tenant_id = some service.settings.platform_id;
    agent_id = none;
    proposal_id = none;
    grant_id = grant_id;
  }

  with_envelope-Adds :
      (token : String) (wanted : Option Uuid) (now : ℕ)
      (k : SignedEnvelope → Uuid → Act GovernanceResult)
      → ((e : SignedEnvelope) (g : Uuid)
          → (e.tenant_id ≡ service.settings.platform_id)
          → (c.subject == service.settings.executor_subject ≡ true)
          → (has_agent e.agent_id service.settings.agent_bindings ≡ true)
          → Adds Fits (k e g))
      → Adds Fits (with_envelope service python answer c token wanted now k)
  unfolding with_envelope
  with_envelope-Adds token wanted now k h =
      guard-Adds (c.subject == service.settings.executor_subject)
        (forbidden "Executor identity is required") _
        (λ executor.
          checked-Adds (verify_string python service.signer now token (wanted_by wanted)) _
            (λ e verified.
              let fit =
                verify_string-matches python service.signer now token (wanted_by wanted) verified in
              guard-Adds
                (e.policy_id == service.policy
                  && has_agent e.agent_id service.settings.agent_bindings)
                (denied "ENVELOPE_MAPPING_MISMATCH") _
                (λ mapped. with_grant-Adds e.grant_id (k e) (λ g.
                  h e g
                    ((uuid_eq.decides e.tenant_id service.settings.platform_id).0
                      (ground (arith, fit)))
                    executor (ground (arith, mapped))))))

  the_end : Uuid → GovernanceResult
  the_end g = record {
    allowed = true;
    reason_code = "SYNTHETIC_EXECUTION_RECORDED";
    governance_id = some g;
  }

  fingerprint-Adds :
      (g : Uuid) (hash : Json) → Adds Fits (Executor.fingerprint python answer g hash)
  fingerprint-Adds g hash = go (text? hash)
    where
      go : (o : Option String) → Adds Fits (Executor.digest_of python g o)
      go none = refuse-Adds String (raised type_error)
      go (some h) = pure-Adds (python.sha256 (concat g.text (concat ":synthetic-complete:" h)))

  executor-Adds :
      (e : SignedEnvelope) (g : Uuid)
      → c.subject == service.settings.executor_subject ≡ true
      → has_agent e.agent_id service.settings.agent_bindings ≡ true
      → Adds Fits (
          Executor.execute python answer service.settings.platform_id g e.agent_id e.action
            e.target_system e.entity_type e.entity_id e.payload_hash)
  unfolding Executor.execute Executor.record_completion permits the_end
  executor-Adds e g executor bound =
      bind-Adds
        (execute python answer service.settings.platform_id (
          consumption g e.agent_id e.action e.target_system e.entity_type e.entity_id
            e.payload_hash))
        _ (asks _ (rw (executor, bound) refl))
        (λ consume. guard-Adds consume.allowed (denied consume.reason_code) _ (λ allowed.
          bind-Adds (Executor.fingerprint python answer g e.payload_hash) _
            (fingerprint-Adds g e.payload_hash)
            (λ print.
              bind-Adds
                (execute python answer service.settings.platform_id (
                  attempt g e.agent_id e.action e.target_system e.entity_type e.entity_id print
                    "SUCCEEDED"))
                _ (asks _ (rw (executor, bound) refl))
                (λ done'.
                  guard-Adds done'.allowed (denied done'.reason_code) _
                    (λ recorded. pure-Adds (the_end g))))))

  -- Whatever a caller asks for and whatever the database answers, each call that is made is for the
  -- platform and is one that the caller may have made.
  pub perform-is_permitted :
      (op : Operation)
      → Adds (λ s. is_permitted service c s ≡ true) (perform service python answer op c)
  unfolding perform permits Methods.consume_grant Methods.record_execution_attempt
  perform-is_permitted (Operation.create_proposal a key expires) =
      agent-asks
        (λ agent.
          proposal agent service.policy a.action a.target_system a.entity_type a.entity_id a.payload
            key expires)
        (λ agent e. rw (bound_agent agent e, eq_refl service.policy.text) refl)
  perform-is_permitted (Operation.issue_proposal_envelope p a now nonce) =
      void-Adds (Methods.issue_proposal_envelope service python answer c p a now nonce) (
        resolve_agent-Adds service c _
          (λ agent e. issue_for-Adds c.subject agent (some p) none a "proposal" now nonce))
  perform-is_permitted (Operation.record_invariant p code passed) = admin-Adds _ (λ admin.
      void-Adds (transact answer service.settings.platform_id (invariant p code passed)) (
        transact-Adds answer service.settings.platform_id (invariant p code passed)
          (Fits-permits (invariant p code passed) admin)))
  perform-is_permitted (Operation.acquire_decision_lock p reason) =
      admin-asks (lock p c.subject reason) (λ admin. rw (admin, eq_refl c.subject) refl)
  perform-is_permitted (Operation.release_decision_lock p) =
      admin-asks (unlock p c.subject) (λ admin. rw (admin, eq_refl c.subject) refl)
  perform-is_permitted (Operation.decide p approved expires) =
      let ask =
        execute python answer service.settings.platform_id
          (decision p c.subject approved expires) in
      void-Adds (Methods.decide service python answer c p approved expires) (
        admin-Adds _ (λ admin.
          guard-Adds (c.subject == service.settings.owner_subject)
            (forbidden "Owner identity is required") ask
            (λ owner.
              asks (decision p c.subject approved expires)
                (rw (admin, owner, eq_refl c.subject) refl))))
  perform-is_permitted (Operation.issue_grant p) = admin-asks (grant p) (λ admin. admin)
  perform-is_permitted (Operation.issue_grant_envelope p g a now nonce) =
      void-Adds (Methods.issue_grant_envelope service python answer c p g a now nonce) (
        resolve_agent-Adds service c _ (λ agent e.
          issue_for-Adds service.settings.executor_subject agent (some p) (some g) a "grant" now
            nonce))
  perform-is_permitted (Operation.revoke_grant g reason) =
      admin-asks (revocation g c.subject reason) (λ admin. rw (admin, eq_refl c.subject) refl)
  perform-is_permitted (Operation.consume_grant token g now) =
      void-Adds (Methods.consume_grant service python answer c token g now) (
        with_envelope-Adds token g now _ (λ e g' tenant executor bound.
          subst
            (λ t. Adds Fits (
              Executor.execute python answer t g' e.agent_id e.action e.target_system e.entity_type
                e.entity_id e.payload_hash))
            (sym tenant) (executor-Adds e g' executor bound)))
  perform-is_permitted (Operation.record_execution_attempt token print status g now) =
      void-Adds (Methods.record_execution_attempt service python answer c token print status g now)
        (with_envelope-Adds token g now _ (λ e g' tenant executor bound.
          subst
            (λ t. Adds Fits (
              execute python answer t (
                attempt g' e.agent_id e.action e.target_system e.entity_type e.entity_id print
                  status)))
            (sym tenant) (asks _ (rw (executor, bound) refl))))
  perform-is_permitted (Operation.record_heartbeat task key) =
      agent-asks (λ agent. heartbeat agent task key) bound_agent
  perform-is_permitted (Operation.record_token_cost beat cost) =
      agent-asks (λ agent. token_cost agent beat cost) bound_agent
  perform-is_permitted (Operation.evaluate_loop_guard p) =
      admin-asks (loop_guard p) (λ admin. admin)
