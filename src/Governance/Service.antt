-- ===== src/Governance/Service.antt =====
-- api/services/paperclip.py: who may call which function of the
-- governance database, with which envelope.
use new_logistic.Prelude.{
  String, Bool, true, false, not, Option, none, some, List, [], ◌∷◌, ◌||◌, ◌==◌, string_eq,
  if◌then◌else◌, elem,
}
use new_logistic.Prelude.Dict.{Dict, lookup}
use new_logistic.Prelude.Int.{ℤ}
use new_logistic.Governance.{Uuid, uuid_eq}
use new_logistic.Governance.Signer.{EnvelopeSigner}
use new_logistic.Governance.Repository.{forbidden, Act, refuse, guard}

pub record Settings : Type 0 where
  pub platform_id : Uuid
  pub owner_subject : String
  pub executor_subject : String
  pub policy_id : Option Uuid
  pub agent_bindings : Dict Uuid
  pub envelope_ttl_seconds : ℤ

-- A `PaperclipService`, whose policy is set.
pub record Service : Type 0 where
  pub signer : EnvelopeSigner
  pub settings : Settings
  pub policy : Uuid

abbrev pub has_some : Option Uuid → Bool
has_some none = false
has_some (some _) = true

-- `s in bindings`
abbrev pub is_bound : String → Dict Uuid → Bool
is_bound s bindings = has_some (lookup s bindings)

-- The subjects are set, and none has the duty of another.
abbrev pub duties_differ : Settings → Bool
duties_differ settings = not (
    settings.owner_subject == ""
    || settings.executor_subject == ""
    || settings.owner_subject == settings.executor_subject
    || is_bound settings.owner_subject settings.agent_bindings
    || is_bound settings.executor_subject settings.agent_bindings)

abbrev pub with_policy : EnvelopeSigner → Settings → Option Uuid → Option Service
with_policy signer settings none = none
with_policy signer settings (some policy) =
    some (record { signer = signer; settings = settings; policy = policy })

-- The constructor's check of the settings; `none` is `GOVERNANCE_CONFIGURATION_INVALID`.
unfoldable pub new_service : EnvelopeSigner → Settings → Option Service
new_service signer settings =
    if duties_differ settings then with_policy signer settings settings.policy_id else none

-- A subject that is authenticated, with the roles of its identity.
pub record Caller : Type 0 where
  pub subject : String
  pub roles : List String

-- `v in bindings.values()`
abbrev pub has_agent : Uuid → Dict Uuid → Bool
has_agent agent [] = false
has_agent agent ((_, u) ∷ bindings) = agent == u || has_agent agent bindings

-- The agent that a subject is bound to, and then the rest.
abbrev pub with_agent : {A : Type 0} → Option Uuid → (Uuid → Act A) → Act A
with_agent none k = refuse (forbidden "Actor is not authorized for Paperclip governance")
with_agent (some agent) k = k agent

module _ (service : Service) where
  -- `_resolve_agent`
  abbrev pub resolve_agent : {A : Type 0} → Caller → (Uuid → Act A) → Act A
  resolve_agent caller = with_agent (lookup caller.subject service.settings.agent_bindings)

  -- `_require_admin`
  abbrev pub require_admin : {A : Type 0} → Caller → Act A → Act A
  require_admin caller = guard (elem "admin" caller.roles) (forbidden "Admin role is required")

  -- `_require_owner`
  abbrev pub require_owner : {A : Type 0} → Caller → Act A → Act A
  require_owner caller rest = require_admin caller (
      guard (caller.subject == service.settings.owner_subject)
        (forbidden "Owner identity is required") rest)

  -- `_require_executor`
  abbrev pub require_executor : {A : Type 0} → Caller → Act A → Act A
  require_executor caller =
      guard (caller.subject == service.settings.executor_subject)
        (forbidden "Executor identity is required")
