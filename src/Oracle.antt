-- ===== src/Oracle.antt =====
-- prototypes/xano/reference_model.py: the offline oracle of orders, jobs, payments, refunds and agent
-- budgets over one database. This module has the tables, the transaction and the commands that are
-- remembered; the operations are in the children.
mod Leads
pub mod Outbox
pub mod Orders
pub mod Refunds
pub mod Budget
mod Tests
use new_logistic.Prelude.{
  ℕ, suc, String, Bool, true, false, Option, none, some, List, [], ◌∷◌, ◌++◌, ◌&&◌, ◌||◌, not, ◌==◌,
  nat_eq, string_eq, if◌then◌else◌,
}

-- The codes of `Rejected`. `malformed` stands for any other exception.
pub data Code : Type 0 where
  forbidden idempotency_required idempotency_conflict not_found ineligible conflict : Code
  injected_interruption lease_rejected stale_lease bad_signature bad_event bad_amount : Code
  event_conflict unknown_order payment_conflict manual_approval_required : Code
  self_approval_denied grant_rejected grant_consumed budget_exceeded malformed : Code

pub record Principal : Type 0 where
  pub tenant : String
  pub account : String
  pub role : String

pub record Order : Type 0 where
  pub id : String
  pub tenant : String
  pub customer : String
  pub state : String

pub record Vehicle : Type 0 where
  pub id : String
  pub tenant : String
  pub vendor : String
  pub eligible : Bool

pub record Assignment : Type 0 where
  pub order_id : String
  pub vehicle_id : String
  pub vendor : String

pub record Command : Type 0 where
  pub tenant : String
  pub actor : String
  pub action : String
  pub key : String
  pub fingerprint : String
  pub result : String

pub record AuditRow : Type 0 where
  pub tenant : String
  pub actor : String
  pub action : String
  pub subject : String

-- A row of the outbox; `until_at` is read only beside a lease, and 0 before the first.
pub record Job : Type 0 where
  pub id : ℕ
  pub subject : String
  pub lease : Option String
  pub until_at : ℕ
  pub done : Bool
  pub generation : ℕ

pub record Payment : Type 0 where
  pub payment_id : String
  pub tenant : String
  pub order_id : String
  pub amount : ℕ

pub record Event : Type 0 where
  pub event_id : String
  pub fingerprint : String

pub record Refund : Type 0 where
  pub id : String
  pub tenant : String
  pub requester : String
  pub order_id : String
  pub approved_by : Option String

pub record Grant : Type 0 where
  pub id : String
  pub tenant : String
  pub agent : String
  pub endpoint : String
  pub model : String
  pub expires : ℕ
  pub max_units : ℕ
  pub used : ℕ

pub record Reservation : Type 0 where
  pub id : String
  pub grant_id : String
  pub units : ℕ

-- The tables, each in the order of insertion, and the one row of `agent_budget`.
pub record Db : Type 0 where
  pub orders : List Order
  pub vehicles : List Vehicle
  pub assignments : List Assignment
  pub commands : List Command
  pub audit : List AuditRow
  pub outbox : List Job
  pub payments : List Payment
  pub events : List Event
  pub refunds : List Refund
  pub cap : ℕ
  pub reserved : ℕ
  pub grants : List Grant
  pub reservations : List Reservation

pub data Result {ℓ} (A : Type ℓ) : Type ℓ where
  ok : A → Result A
  err : Code → Result A

-- The body of a transaction: an exception loses what it has written.
abbrev pub Body : Type 0 → Type 0
Body A = Db → Result (A × Db)

abbrev pub pure : {A : Type 0} → A → Body A
pure a db = ok (a, db)

abbrev pub reject : {A : Type 0} → Code → Body A
reject code db = err code

infixl 5 ◌>>=◌ ◌>>◌
abbrev pub ◌>>=◌ : {A B : Type 0} → Body A → (A → Body B) → Body B
◌>>=◌ m f db = elim (m db) [ ok (a, db') ↦ f a db' | err code ↦ err code ]

abbrev pub ◌>>◌ : {B : Type 0} → Body (Unit {0}) → Body B → Body B
m >> k = m >>= λ _. k

-- `require`
abbrev pub require : Bool → Code → Body (Unit {0})
require true code db = ok (tt, db)
require false code db = err code

-- A read of the tables.
abbrev pub gets : {A : Type 0} → (Db → A) → Body A
gets f db = ok (f db, db)

-- A write that no constraint forbids.
abbrev pub modify : (Db → Db) → Body (Unit {0})
modify f db = ok (tt, f db)

-- `with self.connection()`: commit, or roll back and raise.
abbrev pub transaction : {A : Type 0} → Body A → Db → Result A × Db
transaction body db = elim (body db) [ ok (a, db') ↦ (ok a, db') | err code ↦ (err code, db) ]

-- A check before the connection is opened.
abbrev pub guard : {A : Type 0} → Bool → Code → (Db → Result A × Db) → Db → Result A × Db
guard true code op db = op db
guard false code op db = (err code, db)

module _ {A : Type 0} where
  -- `SELECT ... WHERE p LIMIT 1`
  abbrev pub find : (A → Bool) → List A → Option A
  find p [] = none
  find p (x ∷ xs) = if p x then some x else find p xs

  -- Some row meets `p`: a constraint would be violated.
  abbrev pub any : (A → Bool) → List A → Bool
  any p [] = false
  any p (x ∷ xs) = p x || any p xs

  -- `UPDATE ... SET f WHERE p`
  abbrev pub update : (A → Bool) → (A → A) → List A → List A
  update p f [] = []
  update p f (x ∷ xs) = (if p x then f x else x) ∷ update p f xs

  -- How many rows an update changes.
  abbrev pub rowcount : (A → Bool) → List A → ℕ
  rowcount p [] = 0
  rowcount p (x ∷ xs) = if p x then suc (rowcount p xs) else rowcount p xs

-- `audit`
unfoldable pub write_audit : Principal → String → String → Body (Unit {0})
write_audit p action subject = modify (λ db. record db {
  audit =
      db.audit
      ++ record { tenant = p.tenant; actor = p.account; action = action; subject = subject } ∷ [];
})
