-- ===== src/Oracle/Budget.antt =====
-- prototypes/xano/reference_model.py: an agent reserves units of the budget, once for each grant.
pub mod Reserved
use new_logistic.Prelude.{
  ℕ, ◌+◌, String, Bool, true, false, Option, none, some, List, [], ◌∷◌, ◌++◌, ◌&&◌, not, ◌==◌,
  nat_eq, string_eq, ltb, leb, if◌then◌else◌, ◌||◌,
}
use new_logistic.Oracle.{
  Code, forbidden, conflict, grant_rejected, grant_consumed, budget_exceeded, Principal, Grant,
  Reservation, Db, Result, ok, err, Body, pure, reject, ◌>>=◌, ◌>>◌, require, gets, modify,
  transaction, guard, find, any, update, write_audit,
}

-- The grant is the agent's, for this endpoint and model, not expired, and large enough.
abbrev pub permits : Principal → String → String → ℕ → ℕ → Grant → Bool
permits p endpoint model units now g =
    g.tenant == p.tenant
    && g.agent == p.account
    && g.endpoint == endpoint
    && g.model == model
    && ltb now g.expires
    && leb units g.max_units

-- `UPDATE agent_budget SET reserved=reserved+? WHERE id=1 AND reserved+?<=cap`, and that a row was
-- changed.
unfoldable pub take_units : ℕ → Body (Unit {0})
take_units units db =
    if leb (db.reserved + units) db.cap
    then ok (tt, record db { reserved = db.reserved + units })
    else err budget_exceeded

-- `INSERT INTO reservations VALUES(?,?,?)`: an id and a grant stand once.
unfoldable pub insert_reservation : String → String → ℕ → Body (Unit {0})
insert_reservation reservation grant units db =
    if any (λ r. r.id == reservation || r.grant_id == grant) db.reservations
    then err conflict
    else ok (
      tt,
      record db {
        reservations =
            db.reservations ++ record { id = reservation; grant_id = grant; units = units } ∷ [];
      },
    )

-- `UPDATE grants SET used=1 WHERE id=?`
abbrev pub use_grant : String → Db → Db
use_grant grant db = record db {
  grants = update (λ g. g.id == grant) (λ g. record g { used = 1 }) db.grants;
}

-- The writes of `reserve_agent`.
unfoldable pub reservation_of : Principal → String → String → ℕ → Body (Unit {0})
reservation_of p grant reservation units = do
  take_units units
  insert_reservation reservation grant units
  modify (use_grant grant)
  write_audit p "agent_reserved" reservation

-- The rest of `reserve_agent` for a grant that permits it, given the reservation that has the id.
unfoldable pub reserving :
    Principal → Grant → String → String → ℕ → Option Reservation → Body (Unit {0})
reserving p g grant reservation units (some r) =
    require (r.grant_id == grant && r.units == units) conflict
reserving p g grant reservation units none = do
  require (g.used == 0) grant_consumed
  reservation_of p grant reservation units

-- The rest of `reserve_agent`, given the grant that has the id.
unfoldable pub granting :
    Principal → String → String → String → String → ℕ → ℕ → Option Grant → Body (Unit {0})
granting p grant reservation endpoint model units now none = reject grant_rejected
granting p grant reservation endpoint model units now (some g) = do
  require (permits p endpoint model units now g) grant_rejected
  old ← gets (λ db. find (λ r. r.id == reservation) db.reservations)
  reserving p g grant reservation units old

-- `reserve_agent`. The units are a natural number: one below 0 is refused as 0 is.
unfoldable pub reserve_agent :
    Principal → String → String → String → String → ℕ → ℕ → Db → Result (Unit {0}) × Db
reserve_agent p grant reservation endpoint model units now =
    guard (p.role == "agent" && ltb 0 units) forbidden (
      transaction (do
        found ← gets (λ db. find (λ g. g.id == grant) db.grants)
        granting p grant reservation endpoint model units now found))
