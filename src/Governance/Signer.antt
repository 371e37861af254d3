-- ===== src/Governance/Signer.antt =====
-- api/services/paperclip_envelope.py: the signer, its issue of an envelope and its verification.
use new_logistic.Prelude.{
  ℕ, ◌+◌, String, Bool, true, false, not, ◌&&◌, ◌||◌, Option, none, some, List, [], ◌∷◌, ◌==◌,
  nat_eq, string_eq, ltb, leb, if◌then◌else◌, length,
}
use new_logistic.Prelude.Text.{codes}
use new_logistic.Prelude.Json.{Json, str, is_str}
use new_logistic.Prelude.Int.{ℤ, pos, negsuc, ◌-ℤ◌, below, at_most}
use new_logistic.Governance.{Uuid, Library, uuid_eq}
use new_logistic.Governance.Envelope.{
  SignedEnvelope, envelope_error, type_error, unicode_error, Checked, fails, passes, ◌>>=◌,
  canonical_payload, rstrip, parsed, unpack,
}

abbrev pub is_ascii : List ℕ → Bool
is_ascii [] = true
is_ascii (c ∷ s) = ltb c 128 && is_ascii s

-- `max(n, 1)`
abbrev at_least_one : ℤ → ℕ
at_least_one (pos n) = if leb n 1 then 1 else n
at_least_one (negsuc n) = 1

-- `min(max(n, 1), limit)`
abbrev pub clamp : ℤ → ℕ → ℕ
clamp n limit = let m = at_least_one n in if leb m limit then m else limit

-- An `EnvelopeSigner`: its key and its limit.
pub record EnvelopeSigner : Type 0 where
  pub key : List ℕ
  pub max_ttl : ℕ

unfoldable pub new_signer : List ℕ → ℤ → Option EnvelopeSigner
new_signer key max_ttl_seconds =
    if ltb (length key) 32
    then none
    else some (record { key = key; max_ttl = clamp max_ttl_seconds 300 })

-- What a caller of `verify` asks for; `none` asks for nothing.
pub record Bindings : Type 0 where
  pub purpose : Option String
  pub subject : Option String
  pub tenant_id : Option Uuid
  pub agent_id : Option Uuid
  pub proposal_id : Option Uuid
  pub grant_id : Option Uuid

-- `wanted is None or value == wanted`
abbrev pub fits_text : Option String → Json → Bool
fits_text none v = true
fits_text (some s) v = is_str s v

abbrev pub fits_id : Option Uuid → Option Uuid → Bool
fits_id none v = true
fits_id (some u) none = false
fits_id (some u) (some v) = v == u

-- A condition whose failure raises an `EnvelopeError`.
abbrev pub demand : Bool → String → Checked → Checked
demand b code rest = if b then rest else fails (envelope_error code)

-- The checks after that of the signature, at the time `now`.
unfoldable pub verify_claims : EnvelopeSigner → ℕ → SignedEnvelope → Bindings → Checked
verify_claims signer now e wanted =
    let life = e.expires_at -ℤ e.issued_at in
    demand
      (below (pos 0) life && at_most life (pos signer.max_ttl) && at_most e.issued_at (pos now))
      "ENVELOPE_LIFETIME_INVALID"
      (demand (below (pos now) e.expires_at) "ENVELOPE_EXPIRED" (
        demand (fits_text wanted.purpose e.purpose) "ENVELOPE_PURPOSE_MISMATCH" (
          demand (fits_text wanted.subject e.subject) "ENVELOPE_SUBJECT_MISMATCH" (
            demand (fits_id wanted.tenant_id (some e.tenant_id)) "ENVELOPE_TENANT_MISMATCH" (
              demand (fits_id wanted.agent_id (some e.agent_id)) "ENVELOPE_AGENT_MISMATCH" (
                demand (fits_id wanted.proposal_id e.proposal_id) "ENVELOPE_PROPOSAL_MISMATCH" (
                  demand (fits_id wanted.grant_id e.grant_id) "ENVELOPE_GRANT_MISMATCH"
                    (passes e))))))))

-- What `issue` is given, the lifetime and the purpose aside.
pub record Request : Type 0 where
  pub tenant_id : Uuid
  pub subject : String
  pub agent_id : Uuid
  pub policy_id : Uuid
  pub proposal_id : Option Uuid
  pub grant_id : Option Uuid
  pub action : String
  pub target_system : String
  pub entity_type : String
  pub entity_id : String
  pub payload_hash : String

-- The envelope before it is signed.
unfoldable pub unsigned : Request → String → ℕ → ℕ → String → SignedEnvelope
unsigned r purpose ttl now nonce = record {
  version = str "m5b-v1";
  tenant_id = r.tenant_id;
  subject = str r.subject;
  agent_id = r.agent_id;
  policy_id = r.policy_id;
  proposal_id = r.proposal_id;
  grant_id = r.grant_id;
  action = str r.action;
  target_system = str r.target_system;
  entity_type = str r.entity_type;
  entity_id = str r.entity_id;
  payload_hash = str r.payload_hash;
  purpose = str purpose;
  issued_at = pos now;
  expires_at = pos (now + ttl);
  nonce = str nonce;
  signature = str "";
}

abbrev pub with_signature : String → SignedEnvelope → SignedEnvelope
with_signature signature e = record e { signature = str signature }

-- `hmac.compare_digest(expected, v)`, which takes ASCII texts only, and then `rest`
abbrev pub digest_agrees : String → Json → Checked → Checked
digest_agrees expected (str s) rest =
    if is_ascii (codes expected) && is_ascii (codes s)
    then demand (expected == s) "ENVELOPE_SIGNATURE_INVALID" rest
    else fails type_error
digest_agrees expected _ rest = fails type_error

-- The signature that is made of the envelope against the one that it bears, and then `rest`.
abbrev pub signature_agrees : Option String → Json → Checked → Checked
signature_agrees none v rest = fails unicode_error
signature_agrees (some expected) v rest = digest_agrees expected v rest

-- An envelope with the signature that is made of it.
abbrev pub signed_with : SignedEnvelope → Option String → Checked
signed_with e none = fails unicode_error
signed_with e (some s) = passes (with_signature s e)

abbrev pub and_then : Checked → (SignedEnvelope → Checked) → Checked
and_then (fails reason) k = fails reason
and_then (passes e) k = k e

module _ (python : Library) where
  unfoldable pub sign : EnvelopeSigner → SignedEnvelope → Option String
  unfolding canonical_payload rstrip
  sign signer e = do
    payload ← python.canonical (canonical_payload e)
    some (rstrip (python.encode (python.mac signer.key payload)))

  -- `issue` at the time `now`, with the nonce of `secrets`.
  unfoldable pub issue : EnvelopeSigner → Request → String → ℤ → ℕ → String → Checked
  unfolding sign unsigned
  issue signer r purpose ttl_seconds now nonce =
      if not (purpose == "proposal" || purpose == "grant")
      then fails (envelope_error "ENVELOPE_PURPOSE_INVALID")
      else (let e = unsigned r purpose (clamp ttl_seconds signer.max_ttl) now nonce in
          signed_with e (sign signer e))

  unfoldable pub verify : EnvelopeSigner → ℕ → SignedEnvelope → Bindings → Checked
  unfolding sign verify_claims
  verify signer now e wanted =
      demand (is_str "m5b-v1" e.version) "ENVELOPE_VERSION_MISMATCH"
        (signature_agrees (sign signer e) e.signature (verify_claims signer now e wanted))

  unfoldable pub verify_string : EnvelopeSigner → ℕ → String → Bindings → Checked
  unfolding unpack verify
  verify_string signer now token wanted =
      and_then (parsed python (unpack python token)) (λ e. verify signer now e wanted)
