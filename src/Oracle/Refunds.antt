-- ===== src/Oracle/Refunds.antt =====
-- prototypes/xano/reference_model.py: refunds are requested by a customer and approved by hand, by
-- somebody else.
pub mod Rows
pub mod Approval
use new_logistic.Prelude.{
  String, Bool, true, false, Option, none, some, List, [], ◌∷◌, ◌++◌, ◌&&◌, not, ◌==◌, string_eq,
  if◌then◌else◌,
}
use new_logistic.Oracle.{
  Code, forbidden, not_found, conflict, manual_approval_required, self_approval_denied, Principal,
  Order, Refund, Db, Result, ok, err, Body, pure, reject, ◌>>=◌, ◌>>◌, require, gets, modify,
  transaction, guard, find, any, update, write_audit,
}

-- The order of a customer of the tenant.
abbrev pub is_own : Principal → String → Order → Bool
is_own p id o = o.id == id && o.tenant == p.tenant && o.customer == p.account

abbrev pub new_refund : Principal → String → String → Refund
new_refund p refund order = record {
  id = refund;
  tenant = p.tenant;
  requester = p.account;
  order_id = order;
  approved_by = none;
}

-- `INSERT INTO refunds VALUES(?,?,?,?,NULL)`, where no refund has the id.
abbrev pub add_refund : Principal → String → String → Db → Db
add_refund p refund order db = record db { refunds = db.refunds ++ new_refund p refund order ∷ [] }

-- `request_refund`
unfoldable pub request_refund : Principal → String → String → Db → Result (Unit {0}) × Db
request_refund p refund order = guard (p.role == "customer") forbidden (
    transaction (do
      o ← gets (λ db. find (is_own p order) db.orders)
      elim o as (λ _. Body (Unit {0})) [
        | none ↦ reject not_found
        | some o ↦ do
          old ← gets (λ db. find (λ r. r.id == refund) db.refunds)
          elim old as (λ _. Body (Unit {0})) [
            | some r ↦
                require (r.tenant == p.tenant && r.requester == p.account && r.order_id == order)
                  conflict
            | none ↦ do modify (add_refund p refund order); write_audit p "refund_requested" refund
          ]
      ]))

abbrev pub is_refund : Principal → String → Refund → Bool
is_refund p id r = r.id == id && r.tenant == p.tenant

-- `UPDATE refunds SET approved_by=? WHERE id=?`
abbrev pub set_approved : Principal → String → Db → Db
set_approved p refund db = record db {
  refunds =
      update (λ r. r.id == refund) (λ r. record r { approved_by = some p.account }) db.refunds;
}

-- `approve_refund`
unfoldable pub approve_refund : Principal → String → Db → Result (Unit {0}) × Db
approve_refund p refund = guard (p.role == "human_admin") manual_approval_required (
    transaction (do
      row ← gets (λ db. find (is_refund p refund) db.refunds)
      elim row as (λ _. Body (Unit {0})) [
        | none ↦ reject self_approval_denied
        | some r ↦ do
          require (not (r.requester == p.account)) self_approval_denied
          elim r.approved_by as (λ _. Body (Unit {0})) [
            | some by ↦ require (by == p.account) conflict
            | none ↦ do modify (set_approved p refund); write_audit p "refund_approved" refund
          ]
      ]))
