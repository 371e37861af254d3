-- ===== src/Oracle/Tests/Orders.antt =====
-- The orders, refunds and budget of the oracle (prototypes/xano/reference_model.py) on concrete tables.
use new_logistic.Prelude.{arith, eq_iff, ◌≡◌, refl, String, true, false, List, [], ◌∷◌}
use new_logistic.Prelude.Json.{Json, str, arr, cons}
use new_logistic.Oracle.{Db, Principal, ok, write_audit}
use new_logistic.Oracle.Outbox.{insert_job}
use new_logistic.Oracle.Orders.{
  create_order, assign, seed_vehicle, commanded, replay, creation, insert_order, remember,
  assignment, taking, insert_assignment,
}
use new_logistic.Oracle.Orders.Again.{assign-again}
use new_logistic.Oracle.Orders.Consistent.{
  Call, creates, assigns, seeds, claims as takes, run_all, initial, run_all-IsConsistent,
}
use new_logistic.Oracle.Orders.Assigned.{IsConsistent}
use new_logistic.Oracle.Refunds.Rows.{IsSound}
use new_logistic.Oracle.Refunds.Approval.{
  requests, approves, run_all as refund_all, run_all-IsSound, Call as RefundCall,
}
use new_logistic.Oracle.Budget.{reserve_agent}
use new_logistic.Oracle.Budget.Reserved.{IsCovered, reserve_agent-IsCovered}

-- The fingerprint of a text is the text, and that of a pair its first part.
abbrev fingerprint : Json → String
fingerprint (str s) = s
fingerprint (arr (cons (str s) rest)) = s
fingerprint v = ""

abbrev customer : Principal
customer = record { tenant = "t"; account = "c"; role = "customer" }

abbrev dispatcher : Principal
dispatcher = record { tenant = "t"; account = "d"; role = "dispatcher" }

abbrev seller : Principal
seller = record { tenant = "t"; account = "v"; role = "vendor" }

created : (create_order fingerprint customer "o" "k" (initial 10)).0 ≡ ok "o"
unfolding create_order commanded replay creation insert_order write_audit remember
created = refl

-- A seeded vehicle and a created order.
abbrev ready : Db
ready =
    run_all fingerprint
      (seeds "x" "t" "v" true ∷ seeds "y" "t" "v" true ∷ creates customer "o" "k" ∷ []) (initial 10)

assigned : (assign fingerprint dispatcher "o" "x" "a" false ready).0 ≡ ok "o"
unfolding create_order assign seed_vehicle commanded replay creation insert_order write_audit
    remember assignment taking insert_assignment insert_job
assigned = refl

assign-again_example :
    assign fingerprint dispatcher "o" "x" "a" true
      (assign fingerprint dispatcher "o" "x" "a" false ready).1
    ≡ (ok "o", (assign fingerprint dispatcher "o" "x" "a" false ready).1)
assign-again_example =
    assign-again fingerprint dispatcher "o" "x" "a" false true ready "o"
      (λ e. ground (arith, e, eq_iff "o" "")) assigned

abbrev calls : List Call
calls =
    seeds "x" "t" "v" true
    ∷ creates customer "o" "k"
    ∷ assigns dispatcher "o" "x" "a" true
    ∷ assigns dispatcher "o" "x" "b" false
    ∷ takes "w" 0 3
    ∷ []

run_all-IsConsistent_example : IsConsistent (run_all fingerprint calls (initial 10))
run_all-IsConsistent_example = run_all-IsConsistent fingerprint calls 10

-- An order of another tenant beside one's own.
abbrev two_tenants : Db
two_tenants =
    run_all fingerprint
      (creates (record customer { tenant = "u" }) "q" "k" ∷ creates customer "o" "k" ∷ [])
      (initial 10)

abbrev admin : Principal
admin = record { tenant = "t"; account = "m"; role = "human_admin" }

abbrev refund_calls : List RefundCall
refund_calls =
    requests customer "r" "o"
    ∷ approves (record admin { account = "c" }) "r"
    ∷ approves admin "r"
    ∷ []

two_tenants-IsSound : IsSound two_tenants.refunds
unfolding create_order commanded replay creation insert_order write_audit remember
two_tenants-IsSound = record { proper = refl; distinct = tt }

run_all-IsSound_example : IsSound (refund_all refund_calls two_tenants).refunds
run_all-IsSound_example = run_all-IsSound refund_calls two_tenants two_tenants-IsSound

abbrev agent : Principal
agent = record { tenant = "t"; account = "b"; role = "agent" }

abbrev granted : Db
granted = record (initial 10) {
  grants =
      record {
        id = "g";
        tenant = "t";
        agent = "b";
        endpoint = "e";
        model = "m";
        expires = 9;
        max_units = 8;
        used = 0;
      }
      ∷ [];
}

reserve_agent-IsCovered_example : IsCovered (reserve_agent agent "g" "n" "e" "m" 8 1 granted).1
reserve_agent-IsCovered_example =
    reserve_agent-IsCovered agent "g" "n" "e" "m" 8 1 granted
      (record { counted = refl; within = omega arith })
