-- ===== src/Oracle/Outbox/Fencing.antt =====
-- What a lease on a job of the outbox promises (prototypes/xano/reference_model.py).
use new_logistic.Prelude.{
  ℕ, ◌+◌, ◌<◌, ◌≡◌, ◌≢◌, subst, String, true, false, some, List, arith, nat_eq, Option-cases, inl,
  inr, leb, string_eq,
}
use new_logistic.Oracle.{Db, ok, err, stale_lease}
use new_logistic.Oracle.Outbox.{Lease, claim, acknowledge, is_held}
use new_logistic.Oracle.Outbox.Rows.{job_at, IsDistinct}
use new_logistic.Oracle.Outbox.Calls.{
  Op, claims, acknowledges, exec, exec_all, holds_at, exec-IsDistinct, exec_all-IsDistinct,
  exec_all-holds_at, is_granted, claim-holds_at,
}
use new_logistic.Oracle.Outbox.Held.{
  claimed, AllBefore, is_kept, rowcount-holds_at, is_held-id, reached-AllSafe, finished-AllSafe,
  holds_at-weaken, not-claimed, acknowledge-stale, claim-kept, acknowledge-held, acknowledge-kept,
  accepted-held,
}

claim-reached :
    (token : String) (now ttl : ℕ) (db : Db) (lease : Lease)
    → IsDistinct db.outbox
    → (claim token now ttl db).0 ≡ ok (some lease)
    → holds_at (λ j. leb lease.generation j.generation) lease.job (claimed token now ttl db).outbox
      ≡ true
claim-reached token now ttl db lease d e =
    holds_at-weaken (is_granted lease token (now + ttl)) (λ j. leb lease.generation j.generation)
      lease.job (claimed token now ttl db).outbox (λ j h. ground (arith))
      (claim-holds_at token now ttl db lease d e).0

claim-passed :
    (g i : ℕ) (token : String) (now ttl : ℕ) (db : Db) (lease : Lease)
    → IsDistinct db.outbox
    → holds_at (λ j. leb g j.generation) i db.outbox ≡ true
    → (claim token now ttl db).0 ≡ ok (some lease)
    → lease.job ≡ i
    → holds_at (λ j. leb (g + 1) j.generation) i (claimed token now ttl db).outbox ≡ true
claim-passed g i token now ttl db lease d r e same =
    let c = claim-holds_at token now ttl db lease d e in
    let next : leb (g + 1) lease.generation ≡ true = elim (Option-cases (job_at i db.outbox)) [
      | inl missing ↦ absurd (ground (arith, missing))
      | inr there ↦ ground (arith, there.1, c.1, same)
    ] in
    subst (λ k. holds_at (λ j. leb (g + 1) j.generation) k (claimed token now ttl db).outbox ≡ true)
      same
      (holds_at-weaken (is_granted lease token (now + ttl)) (λ j. leb (g + 1) j.generation)
        lease.job (claimed token now ttl db).outbox (λ j h. ground (arith, next)) c.0)

passed-stale :
    (lease : Lease) (token : String) (now : ℕ) (db : Db)
    → IsDistinct db.outbox
    → holds_at (λ j. leb (lease.generation + 1) j.generation) lease.job db.outbox ≡ true
    → acknowledge lease token now db ≡ (err stale_lease, db)
passed-stale lease token now db d h = acknowledge-stale lease token now db (
    rowcount-holds_at lease.job (is_held lease token now)
      (λ j. leb (lease.generation + 1) j.generation) false db.outbox (is_held-id lease token now)
      (λ j same e. ground (arith)) d h)

-- A job is claimed, and after any calls claimed again. Then, after any further calls, whoever
-- acknowledges the first lease, with any token and at any time, is told that it is stale, and
-- nothing is written.
pub acknowledge-claim_stale :
    (db : Db) (token : String) (now ttl : ℕ) (lease : Lease)
    → (ops : List Op) (token' : String) (now' ttl' : ℕ) (lease' : Lease)
    → (later : List Op) (token'' : String) (now'' : ℕ) → IsDistinct db.outbox
    → (claim token now ttl db).0 ≡ ok (some lease)
    → (claim token' now' ttl' (exec_all ops (claimed token now ttl db))).0 ≡ ok (some lease')
    → lease'.job ≡ lease.job
    → acknowledge lease token'' now''
        (exec_all later (claimed token' now' ttl' (exec_all ops (claimed token now ttl db))))
      ≡ (
        err stale_lease,
        exec_all later (claimed token' now' ttl' (exec_all ops (claimed token now ttl db))),
      )
acknowledge-claim_stale db token now ttl lease ops token' now' ttl' lease' later token'' now'' d e
      e' same =
    let db1 = claimed token now ttl db in
    let d1 = exec-IsDistinct (claims token now ttl) db d in
    let db2 = exec_all ops db1 in
    let d2 = exec_all-IsDistinct ops db1 d1 in
    let db3 = claimed token' now' ttl' db2 in
    let d3 = exec-IsDistinct (claims token' now' ttl') db2 d2 in
    let g = lease.generation in
    let r2 =
      exec_all-holds_at (λ j. leb g j.generation) lease.job ops db1 (reached-AllSafe g ops) d1
        (claim-reached token now ttl db lease d e) in
    passed-stale lease token'' now'' (exec_all later db3) (exec_all-IsDistinct later db3 d3) (
      exec_all-holds_at (λ j. leb (g + 1) j.generation) lease.job later db3
        (reached-AllSafe (g + 1) later) d3
        (claim-passed g lease.job token' now' ttl' db2 lease' d2 r2 e' same))

-- A job is claimed, and other calls follow, the claims among them before the lease expires. Then a
-- further claim before that does not give the job away again.
pub claim-claim_exclusive :
    (db : Db) (token : String) (now ttl : ℕ) (lease : Lease)
    → (ops : List Op) (token' : String) (now' ttl' : ℕ) (lease' : Lease) → IsDistinct db.outbox
    → (claim token now ttl db).0 ≡ ok (some lease)
    → AllBefore (now + ttl) ops
    → now' < now + ttl
    → (claim token' now' ttl' (exec_all ops (claimed token now ttl db))).0 ≡ ok (some lease')
    → lease'.job ≢ lease.job
claim-claim_exclusive db token now ttl lease ops token' now' ttl' lease' d e before soon e' same =
    let db1 = claimed token now ttl db in
    let kept = claim-kept token now ttl db lease ops d e before in
    let d2 = exec_all-IsDistinct ops db1 (exec-IsDistinct (claims token now ttl) db d) in
    let gone =
      not-claimed (is_kept lease token (now + ttl)) token' now' ttl' (exec_all ops db1) lease'
        (λ j h. ground (arith)) d2 e' in
    ground (arith, kept, gone, same)

-- A job is claimed, and other calls follow, the claims among them before the lease expires. Then the
-- job is done once the holder has acknowledged it before that.
pub acknowledge-claim_done :
    (db : Db) (token : String) (now ttl : ℕ) (lease : Lease) (ops : List Op) (now' : ℕ)
    → IsDistinct db.outbox
    → (claim token now ttl db).0 ≡ ok (some lease)
    → AllBefore (now + ttl) ops
    → now' < now + ttl
    → holds_at
        (λ j. j.done)
        lease.job
        (exec (acknowledges lease token now') (exec_all ops (claimed token now ttl db))).outbox
      ≡ true
acknowledge-claim_done db token now ttl lease ops now' d e before soon =
    acknowledge-kept lease token (now + ttl) now' (exec_all ops (claimed token now ttl db))
      (exec_all-IsDistinct ops (claimed token now ttl db)
        (exec-IsDistinct (claims token now ttl) db d))
      soon (claim-kept token now ttl db lease ops d e before)

-- A job that an acknowledgement has accepted is not claimed again, whatever calls come between.
pub claim-acknowledge_final :
    (db : Db) (lease : Lease) (token : String) (now : ℕ)
    → (ops : List Op) (token' : String) (now' ttl' : ℕ) (lease' : Lease) → IsDistinct db.outbox
    → (acknowledge lease token now db).0 ≡ ok tt
    → (claim token' now' ttl' (exec_all ops (acknowledge lease token now db).1)).0
      ≡ ok (some lease')
    → lease'.job ≢ lease.job
claim-acknowledge_final db lease token now ops token' now' ttl' lease' d e e' same =
    let db1 = (acknowledge lease token now db).1 in
    let done = acknowledge-held lease token now db d (accepted-held lease token now db d e) in
    let d1 = exec-IsDistinct (acknowledges lease token now) db d in
    let kept = exec_all-holds_at (λ j. j.done) lease.job ops db1 (finished-AllSafe ops) d1 done in
    let gone =
      not-claimed (λ j. j.done) token' now' ttl' (exec_all ops db1) lease' (λ j h. ground (arith))
        (exec_all-IsDistinct ops db1 d1) e' in
    ground (arith, kept, gone, same)
