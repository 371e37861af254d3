-- ===== src/Oracle/Orders/Tenants.antt =====
-- prototypes/xano/reference_model.py: what a tenant sees of the others' orders.
use new_logistic.Prelude.{
  ◌≡◌, refl, String, List, [], ◌∷◌, ◌==◌, string_eq, arith, Bool-cases, Option-cases, inl, inr,
  if◌then◌else◌,
}
use new_logistic.Oracle.{Principal, Order, Db, find}
use new_logistic.Oracle.Orders.{is_order, read_order}

-- The orders of the tenant.
abbrev pub of_tenant : String → List Order → List Order
of_tenant tenant [] = []
of_tenant tenant (o ∷ orders) =
    if o.tenant == tenant then o ∷ of_tenant tenant orders else of_tenant tenant orders

-- The database without the orders of other tenants.
abbrev pub only : String → Db → Db
only tenant db = record db { orders = of_tenant tenant db.orders }

find-of_tenant :
    (p : Principal) (id : String) (orders : List Order)
    → find (is_order p id) (of_tenant p.tenant orders) ≡ find (is_order p id) orders
find-of_tenant p id [] = refl
find-of_tenant p id (o ∷ orders) = elim (Bool-cases (o.tenant == p.tenant)) [
  | inl own ↦ ground (arith, find-of_tenant p id orders, own)
  | inr other ↦ ground (arith, find-of_tenant p id orders, other)
]

-- What `read_order` answers is the same without the orders of other tenants, and it writes nothing.
pub read_order-only :
    (p : Principal) (order : String) (db : Db)
    → ((read_order p order (only p.tenant db)).0 ≡ (read_order p order db).0)
      × ((read_order p order db).1 ≡ db)
unfolding read_order
read_order-only p order db = elim (Option-cases (find (is_order p order) db.orders)) [
  | inl missing ↦
      (ground (arith, find-of_tenant p order db.orders, missing), ground (arith, missing))
  | inr there ↦ (ground (arith, find-of_tenant p order db.orders, there.1), ground (arith, there.1))
]
