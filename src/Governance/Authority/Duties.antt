-- ===== src/Governance/Authority/Duties.antt =====
-- api/services/paperclip.py: who proposes, who decides and who executes are three subjects.
use new_logistic.Prelude.{
  String, Bool, true, false, ◌≡◌, refl, ◌∙◌, sym, subst, Option, none, some, List, [], ◌∷◌, ◌||◌,
  ◌==◌, string_eq, All, Bool-cases, inl, inr, arith, eq_iff,
}
use new_logistic.Prelude.Dict.{lookup}
use new_logistic.Governance.{Uuid, Library}
use new_logistic.Governance.Calls.{
  Call, proposal, invariant, lock, unlock, decision, grant, revocation, consumption, attempt,
  heartbeat, token_cost, loop_guard,
}
use new_logistic.Governance.Signer.{EnvelopeSigner}
use new_logistic.Governance.Repository.{Database, Sent}
use new_logistic.Governance.Service.{
  Settings, Service, Caller, new_service, is_bound, has_some, duties_differ, with_policy,
}
use new_logistic.Governance.Authority.{Operation, perform, permits, is_permitted, is_it}
use new_logistic.Governance.Authority.Permitted.{perform-is_permitted}

pub data Duty : Type 0 where
  proposing deciding executing : Duty

-- The call is a part of the duty.
abbrev pub serves : Duty → Call → Bool
serves proposing (proposal _ _ _ _ _ _ _ _ _) = true
serves deciding (decision _ _ _ _) = true
serves executing (consumption _ _ _ _ _ _ _) = true
serves executing (attempt _ _ _ _ _ _ _ _) = true
serves _ _ = false

-- Some transaction is a part of the duty.
abbrev pub does : Duty → List Sent → Bool
does duty [] = false
does duty (s ∷ log) = serves duty s.call || does duty log

-- The settings give the subject the duty.
abbrev has_duty : Settings → Duty → String → Bool
has_duty settings proposing subject = is_bound subject settings.agent_bindings
has_duty settings deciding subject = subject == settings.owner_subject
has_duty settings executing subject = subject == settings.executor_subject

is_it-is_bound : (o : Option Uuid) (agent : Uuid) → is_it o agent ≡ true → has_some o ≡ true
is_it-is_bound none agent h = absurd (cc)
is_it-is_bound (some u) agent h = refl

-- A caller who may have a call made has the duty that the call is a part of.
permits-has_duty :
    (service : Service) (c : Caller) (duty : Duty) (call : Call)
    → serves duty call ≡ true
    → permits service c call ≡ true
    → has_duty service.settings duty c.subject ≡ true
unfolding permits
permits-has_duty service c proposing (proposal agent _ _ _ _ _ _ _ _) h p =
    is_it-is_bound (lookup c.subject service.settings.agent_bindings) agent (ground (arith, p))
permits-has_duty service c deciding (decision _ approver _ _) h p = ground (arith, p)
permits-has_duty service c executing (consumption _ agent _ _ _ _ _) h p = ground (arith, p)
permits-has_duty service c executing (attempt _ agent _ _ _ _ _ _) h p = ground (arith, p)
permits-has_duty service c proposing (invariant _ _ _) h p = absurd (cc)
permits-has_duty service c proposing (lock _ _ _) h p = absurd (cc)
permits-has_duty service c proposing (unlock _ _) h p = absurd (cc)
permits-has_duty service c proposing (decision _ _ _ _) h p = absurd (cc)
permits-has_duty service c proposing (grant _) h p = absurd (cc)
permits-has_duty service c proposing (revocation _ _ _) h p = absurd (cc)
permits-has_duty service c proposing (consumption _ _ _ _ _ _ _) h p = absurd (cc)
permits-has_duty service c proposing (attempt _ _ _ _ _ _ _ _) h p = absurd (cc)
permits-has_duty service c proposing (heartbeat _ _ _) h p = absurd (cc)
permits-has_duty service c proposing (token_cost _ _ _) h p = absurd (cc)
permits-has_duty service c proposing (loop_guard _) h p = absurd (cc)
permits-has_duty service c deciding (proposal _ _ _ _ _ _ _ _ _) h p = absurd (cc)
permits-has_duty service c deciding (invariant _ _ _) h p = absurd (cc)
permits-has_duty service c deciding (lock _ _ _) h p = absurd (cc)
permits-has_duty service c deciding (unlock _ _) h p = absurd (cc)
permits-has_duty service c deciding (grant _) h p = absurd (cc)
permits-has_duty service c deciding (revocation _ _ _) h p = absurd (cc)
permits-has_duty service c deciding (consumption _ _ _ _ _ _ _) h p = absurd (cc)
permits-has_duty service c deciding (attempt _ _ _ _ _ _ _ _) h p = absurd (cc)
permits-has_duty service c deciding (heartbeat _ _ _) h p = absurd (cc)
permits-has_duty service c deciding (token_cost _ _ _) h p = absurd (cc)
permits-has_duty service c deciding (loop_guard _) h p = absurd (cc)
permits-has_duty service c executing (proposal _ _ _ _ _ _ _ _ _) h p = absurd (cc)
permits-has_duty service c executing (invariant _ _ _) h p = absurd (cc)
permits-has_duty service c executing (lock _ _ _) h p = absurd (cc)
permits-has_duty service c executing (unlock _ _) h p = absurd (cc)
permits-has_duty service c executing (decision _ _ _ _) h p = absurd (cc)
permits-has_duty service c executing (grant _) h p = absurd (cc)
permits-has_duty service c executing (revocation _ _ _) h p = absurd (cc)
permits-has_duty service c executing (heartbeat _ _ _) h p = absurd (cc)
permits-has_duty service c executing (token_cost _ _ _) h p = absurd (cc)
permits-has_duty service c executing (loop_guard _) h p = absurd (cc)

does-has_duty :
    (service : Service) (c : Caller) (duty : Duty) (log : List Sent)
    → All (λ s. is_permitted service c s ≡ true) log
    → does duty log ≡ true
    → has_duty service.settings duty c.subject ≡ true
does-has_duty service c duty [] all h = absurd (cc)
does-has_duty service c duty (s ∷ log) all h = elim (Bool-cases (serves duty s.call)) [
  | inl serving ↦ permits-has_duty service c duty s.call serving (ground (arith, all.0))
  | inr other ↦ does-has_duty service c duty log all.1 (ground (arith, h, other))
]

-- Two duties of one subject are refused by the constructor.
module _ (settings : Settings) (s : String) (differ : duties_differ settings ≡ true) where
  owner_unbound : is_bound s settings.agent_bindings ≡ true → s == settings.owner_subject ≡ true → ⊥
  owner_unbound h k =
      let bound =
        subst (λ t. is_bound t settings.agent_bindings ≡ true)
          ((eq_iff s settings.owner_subject).0 k) h in
      let free : is_bound settings.owner_subject settings.agent_bindings ≡ false =
        ground (arith, differ) in
      absurd (ground (arith, bound, free))

  executor_unbound :
      is_bound s settings.agent_bindings ≡ true → s == settings.executor_subject ≡ true → ⊥
  executor_unbound h k =
      let bound =
        subst (λ t. is_bound t settings.agent_bindings ≡ true)
          ((eq_iff s settings.executor_subject).0 k) h in
      let free : is_bound settings.executor_subject settings.agent_bindings ≡ false =
        ground (arith, differ) in
      absurd (ground (arith, bound, free))

  owner_other : s == settings.owner_subject ≡ true → s == settings.executor_subject ≡ true → ⊥
  owner_other h k =
      let same : settings.owner_subject == settings.executor_subject ≡ true =
        (eq_iff settings.owner_subject settings.executor_subject).1 (
          sym ((eq_iff s settings.owner_subject).0 h) ∙ (eq_iff s settings.executor_subject).0 k) in
      absurd (ground (arith, differ, same))

-- The settings that the constructor accepts give a subject at most one duty.
has_duty_unique :
    (settings : Settings) (d e : Duty) (s : String)
    → duties_differ settings ≡ true
    → has_duty settings d s ≡ true
    → has_duty settings e s ≡ true
    → d ≡ e
has_duty_unique settings proposing proposing s differ h k = refl
has_duty_unique settings proposing deciding s differ h k =
    absurd (owner_unbound settings s differ h k)
has_duty_unique settings proposing executing s differ h k =
    absurd (executor_unbound settings s differ h k)
has_duty_unique settings deciding proposing s differ h k =
    absurd (owner_unbound settings s differ k h)
has_duty_unique settings deciding deciding s differ h k = refl
has_duty_unique settings deciding executing s differ h k =
    absurd (owner_other settings s differ h k)
has_duty_unique settings executing proposing s differ h k =
    absurd (executor_unbound settings s differ k h)
has_duty_unique settings executing deciding s differ h k =
    absurd (owner_other settings s differ k h)
has_duty_unique settings executing executing s differ h k = refl

policy-settings :
    (signer : EnvelopeSigner) (settings : Settings) (policy : Option Uuid) {service : Service}
    → with_policy signer settings policy ≡ some service
    → settings ≡ service.settings
policy-settings signer settings none h = absurd (cc)
policy-settings signer settings (some policy) h = cc

new_service-duties_differ :
    (signer : EnvelopeSigner) (settings : Settings) (service : Service)
    → new_service signer settings ≡ some service
    → duties_differ service.settings ≡ true
unfolding new_service
new_service-duties_differ signer settings service h = elim (Bool-cases (duties_differ settings)) [
  | inr alike ↦ absurd (ground (arith, h, alike))
  | inl differ ↦
      let made : with_policy signer settings settings.policy_id ≡ some service =
        ground (arith, h, differ) in
      subst (λ t. duties_differ t ≡ true) (policy-settings signer settings settings.policy_id made)
        differ
]

-- With settings that the constructor accepts, a subject who proposes never decides or executes, one who
-- decides never proposes or executes, and one who executes never proposes or decides: what two
-- operations of one subject do, in whatever roles and against whatever databases, is one duty.
pub perform-does_one :
    (signer : EnvelopeSigner) (settings : Settings) (service : Service) (python : Library)
    (first second : Database) (c d : Caller) (op op' : Operation) (duty duty' : Duty)
    → new_service signer settings ≡ some service
    → c.subject ≡ d.subject
    → does duty (perform service python first op c []).1 ≡ true
    → does duty' (perform service python second op' d []).1 ≡ true
    → duty ≡ duty'
perform-does_one signer settings service python first second c d op op' duty duty' accepted same h
      k =
    let (new, adds, all) = perform-is_permitted service python first c op [] in
    let (new', adds', all') = perform-is_permitted service python second d op' [] in
    let one = does-has_duty service c duty new all (subst (λ l. does duty l ≡ true) adds h) in
    let two = does-has_duty service d duty' new' all' (subst (λ l. does duty' l ≡ true) adds' k) in
    has_duty_unique service.settings duty duty' c.subject
      (new_service-duties_differ signer settings service accepted) one
      (subst (λ s. has_duty service.settings duty' s ≡ true) (sym same) two)
