-- ===== src/Governance/Tests.antt =====
-- The governance boundary (api/services/paperclip.py) with one agent, an owner, an executor and one envelope.
use new_logistic.Prelude.{
  String, true, ◌≡◌, ◌↔◌, refl, none, some, [], ◌∷◌, ◌++◌, ◌==◌, ◌&&◌, string_eq, if◌then◌else◌,
  arith,
}
use new_logistic.Prelude.Dict.{Dict, lookup}
use new_logistic.Prelude.Json.{Fields, str, obj, int, end, field, is_str}
use new_logistic.Prelude.Int.{pos}
use new_logistic.Governance.{Uuid, Library}
use new_logistic.Governance.Envelope.{SignedEnvelope, passes, to_string, to_dict, rstrip}
use new_logistic.Governance.Signer.{
  EnvelopeSigner, Request, Bindings, unsigned, with_signature, issue, verify, verify_string,
}
use new_logistic.Governance.Envelope.Verified.{matches, is_live, is_signed, verify-is_signed}
use new_logistic.Governance.Envelope.Padding.{trailing}
use new_logistic.Governance.Envelope.RoundTrip.{IsAscii, ReadsBack, issue-to_string-verify_string}
use new_logistic.Governance.Repository.{
  Sent, Reply, failed, fetched, Database, Cell, empty, boolean, textual, identity, GovernanceResult,
  done, to_result, has_columns, reason_in, identifier_of,
}
use new_logistic.Governance.Repository as Repository
use new_logistic.Governance.Executor as Executor
use new_logistic.Governance.Executor.Order.{
  execute-is_allowed, is_allowed, is_done, reply_to, consuming, recording,
}
use new_logistic.Governance.Payload.{payload_hash}
use new_logistic.Governance.Payload.Reordered.{ReorderedFields, payload_hash-Reordered}
use new_logistic.Governance.Service.{Settings, Service, Caller, new_service}
use new_logistic.Governance.Methods.{Action, issue_grant_envelope, consume_grant}
use new_logistic.Governance.Methods.Executed.{issue_grant_envelope-consume_grant}
use new_logistic.Governance.Authority.{Operation, perform, is_permitted}
use new_logistic.Governance.Authority.Sends.{Adds}
use new_logistic.Governance.Authority.Permitted.{perform-is_permitted}
use new_logistic.Governance.Authority.Duties.{deciding, does, perform-does_one}

abbrev id : String → Uuid
id t = record { text = t }

abbrev settings : Settings
settings = record {
  platform_id = id "platform";
  owner_subject = "owner";
  executor_subject = "executor";
  policy_id = some (id "policy");
  agent_bindings = ("agent", id "agent-1") ∷ [];
  envelope_ttl_seconds = pos 300;
}

abbrev signer : EnvelopeSigner
signer = record { key = 1 ∷ []; max_ttl = 300 }

abbrev service : Service
service = record { signer = signer; settings = settings; policy = id "policy" }

abbrev agent : Caller
agent = record { subject = "agent"; roles = [] }

abbrev owner : Caller
owner = record { subject = "owner"; roles = "admin" ∷ [] }

abbrev executor : Caller
executor = record { subject = "executor"; roles = [] }

abbrev action : Action
action = record {
  action = "confirm_picking";
  target_system = "odoo";
  entity_type = "order";
  entity_id = "o-1";
  payload = field "n" (int 1) end;
}

abbrev request : Request
request = record {
  tenant_id = id "platform";
  subject = "executor";
  agent_id = id "agent-1";
  policy_id = id "policy";
  proposal_id = some (id "proposal");
  grant_id = some (id "grant");
  action = "confirm_picking";
  target_system = "odoo";
  entity_type = "order";
  entity_id = "o-1";
  payload_hash = "digest";
}

-- The envelope that is issued at 1000 for the action.
abbrev sample : SignedEnvelope
sample = with_signature "QUI" (unsigned request "grant" 300 1000 "nonce")

abbrev python : Library
python = record {
  uuid = λ t. some (id t);
  int_of_float = λ t. none;
  int_of_text = λ t. none;
  canonical = λ fields. some (2 ∷ []);
  dumps = λ fields. 1 ∷ [];
  loads = λ bytes. some (obj (to_dict sample));
  mac = λ key bytes. bytes;
  encode = λ bytes. "QUI=";
  decode = λ t. if t == "QUI=" then some (1 ∷ []) else none;
  sha256 = λ t. "digest";
  quote = λ t. t;
  show = λ n. "1";
  decimal = λ t. none;
}

python-IsAscii : IsAscii python
python-IsAscii bytes = refl

sample-ReadsBack : ReadsBack python sample
unfolding unsigned to_dict trailing rstrip
sample-ReadsBack = record {
  read = to_dict sample;
  tenant = (refl, refl);
  agent = (refl, refl);
  policy = (refl, refl);
  proposal = (refl, refl);
  grant = (refl, refl);
  decodes = refl;
  grouped = refl;
  padded = omega arith;
  loads = refl;
  finds = λ k. refl;
}

sample_issued : issue python signer request "grant" (pos 300) 1000 "nonce" ≡ passes sample
unfolding issue
sample_issued = refl

abbrev for_executor : Bindings
for_executor = record {
  purpose = some "grant";
  subject = some "executor";
  tenant_id = some (id "platform");
  agent_id = none;
  proposal_id = none;
  grant_id = some (id "grant");
}

-- 299 seconds after its issue.
issue-to_string-verify_string_example :
    (verify_string python signer 1299 (to_string python sample) for_executor ≡ passes sample)
    ↔ (matches for_executor sample ≡ true)
issue-to_string-verify_string_example =
    issue-to_string-verify_string python signer request "grant" (pos 300) 1000 1299 "nonce"
      for_executor sample python-IsAscii sample-ReadsBack sample_issued (omega arith) (omega arith)

sample_verified : verify python signer 1299 sample for_executor ≡ passes sample
unfolding verify unsigned
sample_verified = refl

verify-is_signed_example :
    (is_str "m5b-v1" sample.version ≡ true)
    × (is_signed python signer sample ≡ true)
    × (is_live signer 1299 sample ≡ true)
    × (matches for_executor sample ≡ true)
    × (sample ≡ sample)
verify-is_signed_example =
    verify-is_signed python signer 1299 sample for_executor sample sample_verified

-- The database answers each transaction with the grant.
abbrev row : String → Dict Cell
row reason =
    ("allowed", boolean true)
    ∷ ("reason_code", textual reason)
    ∷ ("governance_id", identity (id "grant"))
    ∷ []

abbrev answer : Database
answer log s = fetched (some (row "GRANT_CONSUMED"))

abbrev consumed : GovernanceResult
consumed = record {
  allowed = true;
  reason_code = "GRANT_CONSUMED";
  governance_id = some (id "grant");
}

service_accepted : new_service signer settings ≡ some service
unfolding new_service
service_accepted = refl

-- The owner approves a proposal.
abbrev approval : Operation
approval = Operation.decide (id "proposal") true 5000

perform-is_permitted_example :
    Adds (λ s. is_permitted service owner s ≡ true) (perform service python answer approval owner)
perform-is_permitted_example = perform-is_permitted service python answer owner approval

approval_decides : does deciding (perform service python answer approval owner []).1 ≡ true
unfolding perform Repository.execute Repository.transact to_result
approval_decides = refl

perform-does_one_example : deciding ≡ deciding
perform-does_one_example =
    perform-does_one signer settings service python answer answer owner owner approval approval
      deciding deciding service_accepted refl approval_decides approval_decides

abbrev first_sent : Sent
first_sent =
    consuming python answer (id "platform") (id "grant") (id "agent-1") (str "a") (str "t")
      (str "e") (str "i") "h"

abbrev second_sent : Sent
second_sent =
    recording python answer (id "platform") (id "grant") (id "agent-1") (str "a") (str "t")
      (str "e") (str "i") "h"

execute-is_allowed_example :
    (is_done
        (Executor.execute python answer
          (id "platform")
          (id "grant")
          (id "agent-1")
          (str "a")
          (str "t")
          (str "e")
          (str "i")
          (str "h")
          []).0
      ≡ (is_allowed (reply_to python answer [] first_sent)
          && is_allowed (reply_to python answer ([] ++ first_sent ∷ []) second_sent)))
    × ((Executor.execute python answer
          (id "platform")
          (id "grant")
          (id "agent-1")
          (str "a")
          (str "t")
          (str "e")
          (str "i")
          (str "h")
          []).1
        ≡ []
          ++ first_sent
            ∷ (if is_allowed (reply_to python answer [] first_sent) then second_sent ∷ [] else []))
execute-is_allowed_example =
    execute-is_allowed python answer (id "platform") (id "grant") (id "agent-1") (str "a") (str "t")
      (str "e") (str "i") "h" []

sample_for_executor :
    (issue_grant_envelope service python answer agent
      (id "proposal")
      (id "grant")
      action
      1000
      "nonce"
      []).0
    ≡ done sample
unfolding issue payload_hash
sample_for_executor = refl

issue_grant_envelope-consume_grant_example :
    (u : Uuid) × (hash : String) × (lookup "agent" settings.agent_bindings ≡ some u)
    × (payload_hash python action.payload ≡ done hash)
    × (consume_grant service python answer executor
          (to_string python sample)
          (some (id "grant"))
          1299
          []
        ≡ Executor.execute python answer
            (id "platform")
            (id "grant")
            u
            (str "confirm_picking")
            (str "odoo")
            (str "order")
            (str "o-1")
            (str hash)
            [])
issue_grant_envelope-consume_grant_example =
    issue_grant_envelope-consume_grant service python answer agent executor (id "proposal")
      (id "grant") action 1000 1299 "nonce" sample [] [] refl python-IsAscii sample-ReadsBack
      sample_for_executor (omega arith) (omega arith)

abbrev a_then_bb : Fields
a_then_bb = field "a" (int 1) (field "bb" (int 1) end)

abbrev bb_then_a : Fields
bb_then_a = field "bb" (int 1) (field "a" (int 1) end)

payload_hash-Reordered_example : payload_hash python a_then_bb ≡ payload_hash python bb_then_a
payload_hash-Reordered_example =
    payload_hash-Reordered python a_then_bb bb_then_a
      (ReorderedFields.swap "a" "bb" (int 1) (int 1) end refl)
