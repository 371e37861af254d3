-- ===== src/Oracle/Outbox.antt =====
-- prototypes/xano/reference_model.py: the jobs of the outbox, claimed under leases.
pub mod Rows
pub mod Calls
pub mod Held
pub mod Fencing
use new_logistic.Prelude.{
  ℕ, suc, ◌+◌, String, Bool, true, false, Option, none, some, List, [], ◌∷◌, ◌++◌, ◌&&◌, ◌||◌, not,
  ◌==◌, nat_eq, string_eq, ltb, leb, if◌then◌else◌,
}
use new_logistic.Oracle.{
  Code, conflict, lease_rejected, stale_lease, Job, Db, Result, ok, err, Body, pure, reject, ◌>>=◌,
  ◌>>◌, require, gets, modify, transaction, guard, find, any, update, rowcount,
}

pub record Lease : Type 0 where
  pub job : ℕ
  pub generation : ℕ

-- `done=0 AND (lease IS NULL OR until_at<=?)`
abbrev pub is_free : ℕ → Job → Bool
is_free now j = not j.done && elim j.lease [ none ↦ true | some token ↦ leb j.until_at now ]

-- The next value of an integer primary key: one more than the largest.
abbrev pub next_id : List Job → ℕ
next_id [] = 1
next_id (j ∷ jobs) = let rest = next_id jobs in if ltb j.id rest then rest else j.id + 1

-- `INSERT INTO outbox(subject)`; a subject stands once.
unfoldable pub insert_job : String → Body (Unit {0})
insert_job subject db =
    if any (λ j. j.subject == subject) db.outbox
    then err conflict
    else ok (
      tt,
      record db {
        outbox =
            db.outbox
            ++ record {
              id = next_id db.outbox;
              subject = subject;
              lease = none;
              until_at = 0;
              done = false;
              generation = 0;
            }
              ∷ [];
      },
    )

abbrev pub leased : String → ℕ → Job → Job
leased token until j = record j {
  lease = some token;
  until_at = until;
  generation = j.generation + 1;
}

-- `claim`. The rows stand in the order of their ids, since a new row gets the largest.
unfoldable pub claim : String → ℕ → ℕ → Db → Result (Option Lease) × Db
claim token now ttl = guard (not (token == "") && ltb 0 ttl && leb ttl 5) lease_rejected (
    transaction (do
      row ← gets (λ db. find (is_free now) db.outbox)
      elim row as (λ _. Body (Option Lease)) [
        | none ↦ pure none
        | some j ↦ do
          modify (λ db. record db {
            outbox = update (λ k. k.id == j.id) (leased token (now + ttl)) db.outbox;
          })
          pure (some (record { job = j.id; generation = j.generation + 1 }))
      ]))

-- The row that an acknowledgement changes.
abbrev pub is_held : Lease → String → ℕ → Job → Bool
is_held lease token now j =
    j.id == lease.job
    && j.generation == lease.generation
    && elim j.lease [ none ↦ false | some t ↦ t == token ]
    && ltb now j.until_at
    && not j.done

-- `acknowledge`
unfoldable pub acknowledge : Lease → String → ℕ → Db → Result (Unit {0}) × Db
acknowledge lease token now = transaction (do
  count ← gets (λ db. rowcount (is_held lease token now) db.outbox)
  modify (λ db. record db {
    outbox = update (is_held lease token now) (λ j. record j { done = true }) db.outbox;
  })
  require (count == 1) stale_lease)
