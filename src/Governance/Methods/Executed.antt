-- ===== src/Governance/Methods/Executed.antt =====
-- api/services/paperclip.py: from the envelope of a grant to the execution of the action that it names.
use new_logistic.Prelude.{
  ℕ, ◌+◌, ◌≤◌, ◌<◌, String, true, ◌≡◌, refl, sym, ap, subst, ◌∙◌, Option, none, some, List, [], ◌∷◌,
  ◌&&◌, ◌||◌, ◌==◌, string_eq, arith, eq_iff, eq_refl, Bool-cases, inl, inr,
}
use new_logistic.Prelude.Dict.{Dict, lookup}
use new_logistic.Prelude.Json.{str}
use new_logistic.Governance.{Uuid, Library, uuid_eq}
use new_logistic.Governance.Envelope.{SignedEnvelope, Checked, fails, passes, to_string}
use new_logistic.Governance.Signer.{
  Request, Bindings, clamp, issue, unsigned, with_signature, verify_string,
}
use new_logistic.Governance.Envelope.Verified.{matches}
use new_logistic.Governance.Envelope.RoundTrip.{
  IsAscii, ReadsBack, issue_lem, issue-to_string-verify_string,
}
use new_logistic.Governance.Repository.{
  Database, Sent, GovernanceResult, Outcome, done, refused, Act,
}
use new_logistic.Governance.Executor as Executor
use new_logistic.Governance.Payload.{payload_hash}
use new_logistic.Governance.Service.{Service, Caller, has_agent, with_agent}
use new_logistic.Governance.Methods.{
  Action, checked, hashed, issue_grant_envelope, with_envelope, consume_grant,
}

lookup-has_agent :
    (s : String) (bindings : Dict Uuid) (u : Uuid)
    → lookup s bindings ≡ some u
    → has_agent u bindings ≡ true
lookup-has_agent s [] u h = absurd (cc)
lookup-has_agent s ((t, v) ∷ bindings) u h = elim (Bool-cases (t == s)) [
  | inl same ↦
      let found : v ≡ u = ground (arith, h, same) in
      subst (λ x. (x == v || has_agent x bindings) ≡ true) found (rw (eq_refl v.text) refl)
  | inr other ↦
      let rest = lookup-has_agent s bindings u (ground (arith, h, other)) in ground (arith, rest)
]

-- A subject's envelope of a grant, for the executor.
module _ (service : Service) (python : Library) (answer : Database) where
  abbrev pub request : (agent p g : Uuid) → Action → String → Request
  request agent p g a hash = record {
    tenant_id = service.settings.platform_id;
    subject = service.settings.executor_subject;
    agent_id = agent;
    policy_id = service.policy;
    proposal_id = some p;
    grant_id = some g;
    action = a.action;
    target_system = a.target_system;
    entity_type = a.entity_type;
    entity_id = a.entity_id;
    payload_hash = hash;
  }

  checked-done :
      (c : Checked) (log : List Sent) {e : SignedEnvelope}
      → (checked c log).0 ≡ done e
      → c ≡ passes e
  checked-done (fails reason) log h = absurd (cc)
  checked-done (passes e) log h = cc

  hashed-done :
      (o : Outcome String) (k : String → Act SignedEnvelope) (log : List Sent) {e : SignedEnvelope}
      → (hashed o k log).0 ≡ done e
      → (hash : String) × (o ≡ done hash) × ((k hash log).0 ≡ done e)
  hashed-done (refused reason) k log h = absurd (cc)
  hashed-done (done hash) k log h = (hash, refl, h)

  with_agent-done :
      (o : Option Uuid) (k : Uuid → Act SignedEnvelope) (log : List Sent) {e : SignedEnvelope}
      → (with_agent o k log).0 ≡ done e
      → (agent : Uuid) × (o ≡ some agent) × ((k agent log).0 ≡ done e)
  with_agent-done none k log h = absurd (cc)
  with_agent-done (some agent) k log h = (agent, refl, h)

  -- What the executor asks of an envelope for a grant.
  abbrev wanted : Caller → Option Uuid → Bindings
  wanted c grant_id = record {
    purpose = some "grant";
    subject = some c.subject;
    tenant_id = some service.settings.platform_id;
    agent_id = none;
    proposal_id = none;
    grant_id = grant_id;
  }

  with_envelope-passes :
      (c : Caller) (token : String) (g : Uuid) (now : ℕ)
      (k : SignedEnvelope → Uuid → Act GovernanceResult) (e : SignedEnvelope) (log : List Sent)
      → c.subject == service.settings.executor_subject ≡ true
      → verify_string python service.signer now token (wanted c (some g)) ≡ passes e
      → e.policy_id == service.policy && has_agent e.agent_id service.settings.agent_bindings ≡ true
      → e.grant_id ≡ some g
      → with_envelope service python answer c token (some g) now k log ≡ k e g log
  unfolding with_envelope
  with_envelope-passes c token g now k e log executor verified mapped is =
      rw (executor, verified, mapped, is) refl

  issued-matches :
      (c : Caller) (agent p g : Uuid) (a : Action) (hash : String) (ttl now : ℕ) (nonce s : String)
      → c.subject ≡ service.settings.executor_subject
      → matches
          (wanted c (some g))
          (with_signature s (unsigned (request agent p g a hash) "grant" ttl now nonce))
        ≡ true
  unfolding unsigned
  issued-matches c agent p g a hash ttl now nonce s same =
      rw
        (
          same,
          eq_refl service.settings.executor_subject,
          eq_refl service.settings.platform_id.text,
          eq_refl g.text,
        )
        refl

  -- What the envelope of a grant says.
  issued-executes :
      (agent p g : Uuid) (a : Action) (hash : String) (ttl now : ℕ) (nonce s : String)
      (e : SignedEnvelope) (log : List Sent)
      → e ≡ with_signature s (unsigned (request agent p g a hash) "grant" ttl now nonce)
      → (e.policy_id ≡ service.policy)
        × (e.agent_id ≡ agent)
        × (e.grant_id ≡ some g)
        × (Executor.execute python answer e.tenant_id g e.agent_id e.action e.target_system
              e.entity_type e.entity_id e.payload_hash log
            ≡ Executor.execute python answer service.settings.platform_id g agent
                (str a.action)
                (str a.target_system)
                (str a.entity_type)
                (str a.entity_id)
                (str hash)
                log)
  unfolding unsigned
  issued-executes agent p g a hash ttl now nonce s e log is = (
    ap (λ x. x.policy_id) is,
    ap (λ x. x.agent_id) is,
    ap (λ x. x.grant_id) is,
    ap
        (λ x.
          Executor.execute python answer x.tenant_id g x.agent_id x.action x.target_system
            x.entity_type x.entity_id x.payload_hash log)
        is,
  )

  -- An envelope that an agent had issued for a grant, and that the executor hands in before it expires,
  -- has the executor consume that grant, for that agent and for just the action, the target, the entity
  -- and the hash of the payload that it was issued for.
  pub issue_grant_envelope-consume_grant :
      (caller executor : Caller) (p g : Uuid) (a : Action) (now later : ℕ) (nonce : String)
      (e : SignedEnvelope) (log log' : List Sent)
      → executor.subject ≡ service.settings.executor_subject
      → IsAscii python
      → ReadsBack python e
      → (issue_grant_envelope service python answer caller p g a now nonce log).0 ≡ done e
      → now ≤ later
      → later < now + clamp service.settings.envelope_ttl_seconds service.signer.max_ttl
      → (agent : Uuid) × (hash : String) × (lookup caller.subject service.settings.agent_bindings
          ≡ some agent)
        × (payload_hash python a.payload ≡ done hash)
        × (consume_grant service python answer executor (to_string python e) (some g) later log'
            ≡ Executor.execute python answer service.settings.platform_id g agent
                (str a.action)
                (str a.target_system)
                (str a.entity_type)
                (str a.entity_id)
                (str hash)
                log')
  unfolding consume_grant
  issue_grant_envelope-consume_grant caller executor p g a now later nonce e log log' same ascii
        reads issued after before =
      let (agent, bound, rest) =
        with_agent-done (lookup caller.subject service.settings.agent_bindings) _ log issued in
      let (hash, hashes, rest') = hashed-done (payload_hash python a.payload) _ log rest in
      let r = request agent p g a hash in
      let ttl = service.settings.envelope_ttl_seconds in
      let passed = checked-done (issue python service.signer r "grant" ttl now nonce) log rest' in
      let (s, signs, is) = issue_lem python service.signer r "grant" ttl now nonce e passed in
      let fits =
        subst (λ x. matches (wanted executor (some g)) x ≡ true) (sym is)
          (issued-matches executor agent p g a hash (clamp ttl service.signer.max_ttl) now nonce s
            same) in
      let verified =
        (issue-to_string-verify_string python service.signer r "grant" ttl now later nonce
            (wanted executor (some g)) e ascii reads passed after before).1
          fits in
      let (policy, agent_is, grant_is, runs) =
        issued-executes agent p g a hash (clamp ttl service.signer.max_ttl) now nonce s e log' is in
      let has : has_agent e.agent_id service.settings.agent_bindings ≡ true =
        subst (λ u. has_agent u service.settings.agent_bindings ≡ true) (sym agent_is)
          (lookup-has_agent caller.subject service.settings.agent_bindings agent bound) in
      let mapped : e.policy_id == service.policy
            && has_agent e.agent_id service.settings.agent_bindings
          ≡ true =
        let own = (uuid_eq.decides e.policy_id service.policy).1 policy in
        ground (arith, own, has) in
      (
        agent,
        hash,
        bound,
        hashes,
        with_envelope-passes executor (to_string python e) g later _ e log'
              ((eq_iff executor.subject service.settings.executor_subject).1 same) verified mapped
              grant_is
            ∙ runs,
      )
