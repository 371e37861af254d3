-- ===== src/Governance/Authority/Sends.antt =====
-- api/repositories_paperclip.py: the transactions that an act adds to those made before.
use mathlib.Core.List.{append-nil, append_assoc}
use new_logistic.Prelude.{
  String, Bool, true, false, ◌≡◌, refl, sym, ◌∙◌, subst, Option, none, some, List, [], ◌∷◌, ◌++◌,
  All,
}
use new_logistic.Prelude.Dict.{lookup}
use new_logistic.Governance.{Uuid, Library}
use new_logistic.Governance.Calls.{Call}
use new_logistic.Governance.Envelope.{SignedEnvelope, Checked, fails, passes}
use new_logistic.Governance.Repository.{
  Database, Sent, Act, Outcome, done, refused, GovernanceResult, Refusal, denied, forbidden, raised,
  pure, refuse, guard, ◌>>=◌, continue, transact, execute, to_result,
}
use new_logistic.Governance.Service.{Service, Caller, with_agent, resolve_agent}
use new_logistic.Governance.Methods.{checked, hashed, with_grant}

-- The act adds transactions to the log, each with the property.
abbrev pub Adds : {A : Type 0} → (Sent → Type 0) → Act A → Type 0
Adds P m = (log : List Sent) → (new : List Sent) × ((m log).1 ≡ log ++ new) × All P new

All-append : (P : Sent → Type 0) (xs ys : List Sent) → All P xs → All P ys → All P (xs ++ ys)
All-append P [] ys h k = k
All-append P (x ∷ xs) ys h k = (h.0, All-append P xs ys h.1 k)

module _ {P : Sent → Type 0} where
  pub pure-Adds : {A : Type 0} (a : A) → Adds P (pure a)
  pure-Adds a log = ([], sym (append-nil log), tt)

  pub refuse-Adds : (A : Type 0) (reason : Refusal) → Adds P (refuse {A = A} reason)
  refuse-Adds A reason log = ([], sym (append-nil log), tt)

  pub guard-Adds :
      {A : Type 0} (b : Bool) (reason : Refusal) (rest : Act A)
      → (b ≡ true → Adds P rest)
      → Adds P (guard b reason rest)
  guard-Adds true reason rest h = h refl
  guard-Adds {A} false reason rest h = refuse-Adds A reason

  with_agent-Adds :
      {A : Type 0} (o : Option Uuid) (k : Uuid → Act A)
      → ((agent : Uuid) → o ≡ some agent → Adds P (k agent))
      → Adds P (with_agent o k)
  with_agent-Adds {A} none k h =
      refuse-Adds A (forbidden "Actor is not authorized for Paperclip governance")
  with_agent-Adds (some agent) k h = h agent refl

  pub resolve_agent-Adds :
      (service : Service) (c : Caller) {A : Type 0} (k : Uuid → Act A)
      → ((agent : Uuid)
          → lookup c.subject service.settings.agent_bindings ≡ some agent
          → Adds P (k agent))
      → Adds P (resolve_agent service c k)
  resolve_agent-Adds service c k h =
      with_agent-Adds (lookup c.subject service.settings.agent_bindings) k h

  -- What follows an act adds to the log that the act leaves.
  continue-Adds :
      {A B : Type 0} (o : Outcome A) (log new : List Sent) (k : A → Act B)
      → All P new
      → ((a : A) → Adds P (k a))
      → (all : List Sent) × ((continue (o, log ++ new) k).1 ≡ log ++ all) × All P all
  continue-Adds (done a) log new k holds h =
      let (more, grows, holds') = h a (log ++ new) in
      (new ++ more, grows ∙ append_assoc log new more, All-append P new more holds holds')
  continue-Adds (refused reason) log new k holds h = (new, refl, holds)

  pub bind-Adds :
      {A B : Type 0} (m : Act A) (k : A → Act B)
      → Adds P m
      → ((a : A) → Adds P (k a))
      → Adds P (m >>= k)
  bind-Adds m k h h' log =
      let (new, grows, holds) = h log in
      subst (λ l. (all : List Sent) × ((continue ((m log).0, l) k).1 ≡ log ++ all) × All P all)
        (sym grows) (continue-Adds (m log).0 log new k holds h')

  pub transact-Adds :
      (answer : Database) (tenant : Uuid) (call : Call)
      → P (record { tenant = tenant; call = call })
      → Adds P (transact answer tenant call)
  unfolding transact
  transact-Adds answer tenant call holds log =
      (record { tenant = tenant; call = call } ∷ [], refl, (holds, tt))

  pub execute-Adds :
      (python : Library) (answer : Database) (tenant : Uuid) (call : Call)
      → P (record { tenant = tenant; call = call })
      → Adds P (execute python answer tenant call)
  unfolding execute
  execute-Adds python answer tenant call holds =
      bind-Adds (transact answer tenant call) (λ row log. (to_result python row, log))
        (transact-Adds answer tenant call holds) (λ row log. ([], sym (append-nil log), tt))

  pub checked-Adds :
      {B : Type 0} (c : Checked) (k : SignedEnvelope → Act B)
      → ((e : SignedEnvelope) → c ≡ passes e → Adds P (k e))
      → Adds P (checked c >>= k)
  checked-Adds {B} (fails reason) k h = refuse-Adds B (raised reason)
  checked-Adds (passes e) k h = h e refl

  pub checked_only-Adds : (c : Checked) → Adds P (checked c)
  checked_only-Adds (fails reason) = refuse-Adds SignedEnvelope (raised reason)
  checked_only-Adds (passes e) = pure-Adds e

  pub hashed-Adds :
      (o : Outcome String) (k : String → Act SignedEnvelope)
      → ((hash : String) → Adds P (k hash))
      → Adds P (hashed o k)
  hashed-Adds (refused reason) k h = refuse-Adds SignedEnvelope reason
  hashed-Adds (done hash) k h = h hash

  pub with_grant-Adds :
      (o : Option Uuid) (k : Uuid → Act GovernanceResult)
      → ((g : Uuid) → Adds P (k g))
      → Adds P (with_grant o k)
  with_grant-Adds none k h = refuse-Adds GovernanceResult (denied "ENVELOPE_GRANT_MISSING")
  with_grant-Adds (some g) k h = h g
