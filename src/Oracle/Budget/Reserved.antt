-- ===== src/Oracle/Budget/Reserved.antt =====
-- prototypes/xano/reference_model.py: what is reserved stays within the budget and the grants.
use new_logistic.Prelude.{
  ℕ, ◌+◌, ◌≤◌, ◌≡◌, subst, String, Bool, Option, none, some, List, [], ◌∷◌, ◌++◌, ◌==◌, ◌&&◌, ◌||◌,
  nat_eq, string_eq, arith, ltb, leb, Bool-cases,
}
use new_logistic.Oracle.{
  Principal, Grant, Reservation, Db, conflict, find, any, write_audit, forbidden, Code,
  grant_consumed, grant_rejected, gets, require, modify, ◌>>=◌, ◌>>◌,
}
use new_logistic.Oracle.Leads.{Leads, bind-Leads, transaction-Leads}
use new_logistic.Oracle.Budget.{
  permits, take_units, insert_reservation, use_grant, reservation_of, reserving, granting,
  reserve_agent,
}

-- The units of all reservations.
abbrev pub total : List Reservation → ℕ
total [] = 0
total (r ∷ reservations) = r.units + total reservations

-- The units of the reservations are what the budget has as reserved, and that is within the cap.
pub record IsCovered (db : Db) : Type 0 where
  pub counted : db.reserved ≡ total db.reservations
  pub within : db.reserved ≤ db.cap

total-append :
    (reservations : List Reservation) (r : Reservation)
    → total (reservations ++ r ∷ []) ≡ total reservations + r.units
total-append [] r = omega arith
total-append (s ∷ reservations) r = ground (arith, total-append reservations r)

-- The one reservation of these values.
abbrev pub reserved_as : String → String → ℕ → Reservation
reserved_as reservation grant units = record { id = reservation; grant_id = grant; units = units }

-- As much of it as holds while the reservation is still to be written.
record IsAhead (units : ℕ) (db : Db) : Type 0 where
  counted : db.reserved ≡ total db.reservations + units
  within : db.reserved ≤ db.cap

take_units-Leads : (units : ℕ) → Leads IsCovered (take_units units) (IsAhead units)
unfolding take_units
take_units-Leads units = record {
  leads = λ db db' a e c.
      let room = Bool-cases (leb (db.reserved + units) db.cap) in
      record { counted = ground (arith, room, c.counted); within = ground (arith, room) };
}

insert_reservation-Leads :
    (reservation grant : String) (units : ℕ)
    → Leads (IsAhead units) (insert_reservation reservation grant units) IsCovered
unfolding insert_reservation
insert_reservation-Leads reservation grant units = record {
  leads = λ db db' a e c.
      let fresh =
        Bool-cases (any (λ r. r.id == reservation || r.grant_id == grant) db.reservations) in
      record {
        counted = ground (
          arith,
          fresh,
          c.counted,
          total-append db.reservations (reserved_as reservation grant units),
        );
        within = ground (arith, fresh, c.within);
      };
}

use_grant-Leads : (grant : String) → Leads IsCovered (modify (use_grant grant)) IsCovered
use_grant-Leads grant = record {
  leads = λ db db' a e c. record {
    counted = ground (arith, c.counted);
    within = ground (arith, c.within);
  };
}

write_audit-Leads :
    (p : Principal) (action subject : String)
    → Leads IsCovered (write_audit p action subject) IsCovered
unfolding write_audit
write_audit-Leads p action subject = record {
  leads = λ db db' a e c. record {
    counted = ground (arith, c.counted);
    within = ground (arith, c.within);
  };
}

reservation_of-Leads :
    (p : Principal) (grant reservation : String) (units : ℕ)
    → Leads IsCovered (reservation_of p grant reservation units) IsCovered
unfolding reservation_of
reservation_of-Leads p grant reservation units =
    let audits = write_audit p "agent_reserved" reservation in
    let uses = modify (use_grant grant) in
    let inserts = insert_reservation reservation grant units in
    bind-Leads IsCovered (IsAhead units) IsCovered (take_units units)
      (λ _. inserts >> (uses >> audits)) (take_units-Leads units)
      (λ _.
        bind-Leads (IsAhead units) IsCovered IsCovered inserts (λ _. uses >> audits)
          (insert_reservation-Leads reservation grant units)
          (λ _.
            bind-Leads IsCovered IsCovered IsCovered uses (λ _. audits) (use_grant-Leads grant)
              (λ _. write_audit-Leads p "agent_reserved" reservation)))

require-Leads : (b : Bool) (code : Code) → Leads IsCovered (require b code) IsCovered
require-Leads b code = record { leads = λ db db' a e c. subst IsCovered (ground (arith)) c }

gets-Leads : {A : Type 0} (f : Db → A) → Leads IsCovered (gets f) IsCovered
gets-Leads f = record { leads = λ db db' a e c. subst IsCovered (ground (arith)) c }

reserving-Leads :
    (p : Principal) (g : Grant) (grant reservation : String) (units : ℕ) (old : Option Reservation)
    → Leads IsCovered (reserving p g grant reservation units old) IsCovered
unfolding reserving
reserving-Leads p g grant reservation units none =
    bind-Leads IsCovered IsCovered IsCovered (require (g.used == 0) grant_consumed)
      (λ _. reservation_of p grant reservation units) (require-Leads (g.used == 0) grant_consumed)
      (λ _. reservation_of-Leads p grant reservation units)
reserving-Leads p g grant reservation units (some r) =
    require-Leads (r.grant_id == grant && r.units == units) conflict

granting-Leads :
    (p : Principal) (grant reservation endpoint model : String) (units now : ℕ)
    (found : Option Grant)
    → Leads IsCovered (granting p grant reservation endpoint model units now found) IsCovered
unfolding granting
granting-Leads p grant reservation endpoint model units now none = record {
  leads = λ db db' a e c. absurd (ground (arith));
}
granting-Leads p grant reservation endpoint model units now (some g) =
    let reads = λ (db : Db). find (λ r. r.id == reservation) db.reservations in
    bind-Leads IsCovered IsCovered IsCovered
      (require (permits p endpoint model units now g) grant_rejected)
      (λ _. gets reads >>= reserving p g grant reservation units)
      (require-Leads (permits p endpoint model units now g) grant_rejected)
      (λ _.
        bind-Leads IsCovered IsCovered IsCovered (gets reads)
          (reserving p g grant reservation units) (gets-Leads reads)
          (reserving-Leads p g grant reservation units))

-- If what is reserved is the sum of the reservations and within the cap, then that is so after any
-- call that reserves, accepted or refused.
pub reserve_agent-IsCovered :
    (p : Principal) (grant reservation endpoint model : String) (units now : ℕ) (db : Db)
    → IsCovered db
    → IsCovered (reserve_agent p grant reservation endpoint model units now db).1
unfolding reserve_agent
reserve_agent-IsCovered p grant reservation endpoint model units now db c =
    let reads = λ (db : Db). find (λ g. g.id == grant) db.grants in
    let body = granting p grant reservation endpoint model units now in
    transaction-Leads IsCovered (p.role == "agent" && ltb 0 units) forbidden (gets reads >>= body)
      db
      (bind-Leads IsCovered IsCovered IsCovered (gets reads) body (gets-Leads reads)
        (granting-Leads p grant reservation endpoint model units now))
      c
