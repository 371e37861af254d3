-- ===== src/Governance/Envelope.antt =====
-- api/services/paperclip_envelope.py: the signed envelope, its issue and its verification.
pub mod Verified
pub mod Padding
pub mod RoundTrip
use Prim.Native.String.{count}
use new_logistic.Prelude.{
  ℕ, suc, ◌+◌, ◌-◌, ◌%◌, String, concat, Bool, true, false, not, ◌&&◌, ◌||◌, Option, none, some,
  List, [], ◌∷◌, ◌==◌, nat_eq, string_eq, ltb, leb, if◌then◌else◌, length,
}
use new_logistic.Prelude.Text.{codes}
use new_logistic.Prelude.Json.{
  Json, Fields, null, bool, int, minus, float, str, arr, obj, end, field, get?, get, truthy, is_str,
}
use new_logistic.Prelude.Int.{ℤ, pos, negsuc, ◌-ℤ◌, below, at_most}
use new_logistic.Governance.{Uuid, Library, uuid_eq}

-- What `from_dict` takes without a check is any value, and a text where `issue` made it.
pub record SignedEnvelope : Type 0 where
  pub version : Json
  pub tenant_id : Uuid
  pub subject : Json
  pub agent_id : Uuid
  pub policy_id : Uuid
  pub proposal_id : Option Uuid
  pub grant_id : Option Uuid
  pub action : Json
  pub target_system : Json
  pub entity_type : Json
  pub entity_id : Json
  pub payload_hash : Json
  pub purpose : Json
  pub issued_at : ℤ
  pub expires_at : ℤ
  pub nonce : Json
  pub signature : Json

-- An `EnvelopeError` with its code, or an exception that `verify` lets through: of
-- `hmac.compare_digest` on other than ASCII texts, and of encoding a lone surrogate.
pub data Failure : Type 0 where
  envelope_error : String → Failure
  type_error : Failure
  unicode_error : Failure

pub data Checked : Type 0 where
  fails : Failure → Checked
  passes : SignedEnvelope → Checked

abbrev pub id_json : Option Uuid → Json
id_json none = null
id_json (some u) = str u.text

abbrev pub int_json : ℤ → Json
int_json (pos n) = int n
int_json (negsuc n) = minus n

-- The fields that the signature covers.
unfoldable pub payload_with : Fields → SignedEnvelope → Fields
payload_with rest e = field "v" e.version (
    field "t" (str e.tenant_id.text) (
      field "s" e.subject (
        field "a" (str e.agent_id.text) (
          field "p" (str e.policy_id.text) (
            field "pr" (id_json e.proposal_id) (
              field "g" (id_json e.grant_id) (
                field "ak" e.action (
                  field "ts" e.target_system (
                    field "et" e.entity_type (
                      field "ei" e.entity_id (
                        field "ph" e.payload_hash (
                          field "pu" e.purpose (
                            field "iat" (int_json e.issued_at) (
                              field "exp" (int_json e.expires_at)
                                (field "n" e.nonce rest)))))))))))))))

unfoldable pub canonical_payload : SignedEnvelope → Fields
unfolding payload_with
canonical_payload = payload_with end

unfoldable pub to_dict : SignedEnvelope → Fields
unfolding payload_with
to_dict e = payload_with (field "sig" e.signature end) e

-- `s.rstrip("=")`
unfoldable pub rstrip : String → String
rstrip String.[] = String.[]
rstrip (String.◌∷◌ c s) = elim (rstrip s) [
  | String.[] ↦ if String.◌∷◌ c String.[] == "=" then String.[] else String.◌∷◌ c String.[]
  | String.◌∷◌ d t ↦ String.◌∷◌ c (String.◌∷◌ d t)
]

-- `"=" * (-n % 4)`
unfoldable pub padding : ℕ → String
padding n =
    if n % 4 == 1 then "===" else if n % 4 == 2 then "==" else if n % 4 == 3 then "=" else ""

infixl 5 ◌>>=◌
abbrev pub ◌>>=◌ : {A B : Type 0} → Option A → (A → Option B) → Option B
none >>= k = none
some a >>= k = k a

abbrev pub checked : Option SignedEnvelope → Checked
checked none = fails (envelope_error "ENVELOPE_MALFORMED")
checked (some e) = passes e

abbrev or_null : Option Json → Json
or_null none = null
or_null (some v) = v

module _ (python : Library) where
  -- `UUID(v)`
  abbrev pub uuid_of : Json → Option Uuid
  uuid_of (str s) = python.uuid s
  uuid_of _ = none

  -- `UUID(v) if v else None`
  abbrev pub optional_uuid : Json → Option (Option Uuid)
  optional_uuid v =
      if truthy v then elim (uuid_of v) [ none ↦ none | some u ↦ some (some u) ] else some none

  -- `int(v)`
  abbrev pub int_of : Json → Option ℤ
  int_of (int n) = some (pos n)
  int_of (minus n) = some (negsuc n)
  int_of (bool b) = some (pos (if b then 1 else 0))
  int_of (float t) = python.int_of_float t
  int_of (str s) = python.int_of_text s
  int_of _ = none

  -- `from_dict` on a dict that finds by `find`; each failure of a field is `ENVELOPE_MALFORMED`.
  unfoldable pub from_lookup : (String → Option Json) → Option SignedEnvelope
  from_lookup find = do
    version ← find "v"
    tenant_id ← (find "t" >>= uuid_of)
    subject ← find "s"
    agent_id ← (find "a" >>= uuid_of)
    policy_id ← (find "p" >>= uuid_of)
    proposal_id ← optional_uuid (or_null (find "pr"))
    grant_id ← optional_uuid (or_null (find "g"))
    action ← find "ak"
    target_system ← find "ts"
    entity_type ← find "et"
    entity_id ← find "ei"
    payload_hash ← find "ph"
    purpose ← find "pu"
    issued_at ← (find "iat" >>= int_of)
    expires_at ← (find "exp" >>= int_of)
    nonce ← find "n"
    signature ← find "sig"
    some (record {
      version = version;
      tenant_id = tenant_id;
      subject = subject;
      agent_id = agent_id;
      policy_id = policy_id;
      proposal_id = proposal_id;
      grant_id = grant_id;
      action = action;
      target_system = target_system;
      entity_type = entity_type;
      entity_id = entity_id;
      payload_hash = payload_hash;
      purpose = purpose;
      issued_at = issued_at;
      expires_at = expires_at;
      nonce = nonce;
      signature = signature;
    })

  -- `from_dict`; a value that is no dict has no fields.
  unfoldable pub from_dict : Json → Checked
  unfolding from_lookup
  from_dict (obj fields) = checked (from_lookup (λ k. get? k fields))
  from_dict _ = checked none

  -- `from_dict` of a text that `json.loads` reads.
  abbrev pub parsed : Option Json → Checked
  parsed none = checked none
  parsed (some v) = from_dict v

  unfoldable pub to_string : SignedEnvelope → String
  unfolding rstrip to_dict
  to_string e = rstrip (python.encode (python.dumps (to_dict e)))

  -- The bytes of `to_string` read back: padded, decoded and parsed.
  unfoldable pub unpack : String → Option Json
  unfolding padding
  unpack t = do raw ← python.decode (concat t (padding (count t))); python.loads raw
