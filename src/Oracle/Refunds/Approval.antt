-- ===== src/Oracle/Refunds/Approval.antt =====
-- prototypes/xano/reference_model.py: nobody approves a refund of their own.
use new_logistic.Prelude.{
  ◌≡◌, sym, subst, String, false, none, some, List, [], ◌∷◌, ◌==◌, ◌&&◌, string_eq, not, arith,
  Bool-cases, Option-cases, inl, inr,
}
use new_logistic.Oracle.{Principal, Refund, Db, find, write_audit}
use new_logistic.Oracle.Refunds.{
  is_own, is_refund, new_refund, add_refund, set_approved, request_refund, approve_refund,
}
use new_logistic.Oracle.Refunds.Rows.{
  IsSound, all_proper-append, IsDistinct-append, IsDistinct-update, all_proper-update,
}

add_refund-IsSound :
    (p : Principal) (refund order : String) (db : Db)
    → find (λ r. r.id == refund) db.refunds ≡ none
    → IsSound db.refunds
    → IsSound (add_refund p refund order db).refunds
add_refund-IsSound p refund order db new c =
    let r = new_refund p refund order in
    record {
      proper = ground (arith, all_proper-append db.refunds r, c.proper);
      distinct = IsDistinct-append db.refunds r new c.distinct;
    }

pub request_refund-IsSound :
    (p : Principal) (refund order : String) (db : Db)
    → IsSound db.refunds
    → IsSound (request_refund p refund order db).1.refunds
unfolding request_refund write_audit
request_refund-IsSound p refund order db c =
    elim (Option-cases (find (λ r. r.id == refund) db.refunds)) [
      | inl new ↦ elim (Bool-cases (p.role == "customer")) [
        | inl good ↦ elim (Option-cases (find (is_own p order) db.orders)) [
          | inl missing ↦ subst IsSound (sym (ground (arith))) c
          | inr there ↦
              subst IsSound (sym (ground (arith, there.1)))
                (add_refund-IsSound p refund order db new c)
        ]
        | inr bad ↦ subst IsSound (sym (ground (arith))) c
      ]
      | inr old ↦ subst IsSound (sym (ground (arith, old.1, Bool-cases (p.role == "customer")))) c
    ]

set_approved-IsSound :
    (p : Principal) (refund : String) (db : Db) (r : Refund)
    → find (is_refund p refund) db.refunds ≡ some r
    → (r.requester == p.account) ≡ false
    → IsSound db.refunds
    → IsSound (set_approved p refund db).refunds
set_approved-IsSound p refund db r e other c = record {
  proper = all_proper-update p refund db.refunds r e other c;
  distinct = IsDistinct-update refund p.account db.refunds c.distinct;
}

approve_refund-IsSound :
    (p : Principal) (refund : String) (db : Db)
    → IsSound db.refunds
    → IsSound (approve_refund p refund db).1.refunds
unfolding approve_refund write_audit
approve_refund-IsSound p refund db c = elim (Option-cases (find (is_refund p refund) db.refunds)) [
  | inl missing ↦
      subst IsSound (sym (ground (arith, missing, Bool-cases (p.role == "human_admin")))) c
  | inr there ↦
      elim (Bool-cases (p.role == "human_admin" && not (there.0.requester == p.account))) [
        | inl good ↦ elim (Option-cases there.0.approved_by) [
          | inl unapproved ↦
              subst IsSound (sym (ground (arith, there.1, unapproved)))
                (set_approved-IsSound p refund db there.0 there.1 (ground (arith)) c)
          | inr by ↦
              subst IsSound (sym (ground (arith, there.1, by.1, Bool-cases (by.0 == p.account)))) c
        ]
        | inr bad ↦
            subst IsSound (sym (ground (arith, there.1, Bool-cases (p.role == "human_admin")))) c
      ]
]

-- A call that writes the refunds.
pub data Call : Type 0 where
  requests : Principal → String → String → Call
  approves : Principal → String → Call

abbrev pub run_all : List Call → Db → Db
run_all [] db = db
run_all (requests p refund order ∷ calls) db = run_all calls (request_refund p refund order db).1
run_all (approves p refund ∷ calls) db = run_all calls (approve_refund p refund db).1

-- However refunds are requested and approved, by whomever: if no refund was approved by the one who
-- requested it, and no id stood twice, then that is so after the calls.
pub run_all-IsSound :
    (calls : List Call) (db : Db) → IsSound db.refunds → IsSound (run_all calls db).refunds
run_all-IsSound [] db c = c
run_all-IsSound (requests p refund order ∷ calls) db c =
    run_all-IsSound calls (request_refund p refund order db).1
      (request_refund-IsSound p refund order db c)
run_all-IsSound (approves p refund ∷ calls) db c =
    run_all-IsSound calls (approve_refund p refund db).1 (approve_refund-IsSound p refund db c)
