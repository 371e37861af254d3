-- ===== src/Oracle/Tests/Jobs.antt =====
-- The outbox of the oracle (prototypes/xano/reference_model.py) on concrete jobs.
use new_logistic.Prelude.{arith, ◌≡◌, ◌≢◌, refl, true, false, none, some, [], ◌∷◌}
use new_logistic.Oracle.{Db, ok, err, stale_lease}
use new_logistic.Oracle.Outbox.{Lease, claim, acknowledge}
use new_logistic.Oracle.Outbox.Rows.{IsDistinct}
use new_logistic.Oracle.Outbox.Calls.{claims, acknowledges, inserts, exec, exec_all, holds_at}
use new_logistic.Oracle.Outbox.Held.{claimed}
use new_logistic.Oracle.Outbox.Fencing.{
  acknowledge-claim_stale, claim-claim_exclusive, acknowledge-claim_done,
}
use new_logistic.Oracle.Orders.Consistent.{initial}

-- Two jobs, neither claimed.
abbrev two_jobs : Db
two_jobs = record (initial 10) {
  outbox =
      record { id = 1; subject = "o1"; lease = none; until_at = 0; done = false; generation = 0 }
      ∷ record { id = 2; subject = "o2"; lease = none; until_at = 0; done = false; generation = 0 }
      ∷ [];
}

abbrev first_lease : Lease
first_lease = record { job = 1; generation = 1 }

abbrev second_lease : Lease
second_lease = record { job = 1; generation = 2 }

abbrev other_lease : Lease
other_lease = record { job = 2; generation = 1 }

first_claim : (claim "a" 0 3 two_jobs).0 ≡ ok (some first_lease)
unfolding claim
first_claim = refl

-- The lease runs out at 3, and the job is claimed again.
second_claim : (claim "b" 3 5 (exec_all [] (claimed "a" 0 3 two_jobs))).0 ≡ ok (some second_lease)
unfolding claim
second_claim = refl

acknowledge-claim_stale_example :
    acknowledge first_lease "a" 4
      (exec_all [] (claimed "b" 3 5 (exec_all [] (claimed "a" 0 3 two_jobs))))
    ≡ (err stale_lease, exec_all [] (claimed "b" 3 5 (exec_all [] (claimed "a" 0 3 two_jobs))))
acknowledge-claim_stale_example =
    acknowledge-claim_stale two_jobs "a" 0 3 first_lease [] "b" 3 5 second_lease [] "a" 4
      (refl, (refl, tt)) first_claim second_claim refl

-- Before 3 the first job is held, and another claim gets the second.
held_claim : (claim "b" 2 5 (exec_all [] (claimed "a" 0 3 two_jobs))).0 ≡ ok (some other_lease)
unfolding claim
held_claim = refl

claim-claim_exclusive_example : other_lease.job ≢ first_lease.job
claim-claim_exclusive_example =
    claim-claim_exclusive two_jobs "a" 0 3 first_lease [] "b" 2 5 other_lease (refl, (refl, tt))
      first_claim tt (omega arith) held_claim

acknowledge-claim_done_example :
    holds_at
      (λ j. j.done)
      1
      (exec
        (acknowledges first_lease "a" 2)
        (exec_all (inserts "o3" ∷ claims "b" 1 5 ∷ []) (claimed "a" 0 3 two_jobs))).outbox
    ≡ true
acknowledge-claim_done_example =
    acknowledge-claim_done two_jobs "a" 0 3 first_lease (inserts "o3" ∷ claims "b" 1 5 ∷ []) 2
      (refl, (refl, tt)) first_claim (omega arith, tt) (omega arith)

-- The first job, acknowledged.
accepted : (acknowledge first_lease "a" 2 (claimed "a" 0 3 two_jobs)).0 ≡ ok tt
unfolding acknowledge claim
accepted = refl

next_claim :
    (claim "b" 9 5 (exec_all [] (acknowledge first_lease "a" 2 (claimed "a" 0 3 two_jobs)).1)).0
    ≡ ok (some other_lease)
unfolding acknowledge claim
next_claim = refl

claimed-IsDistinct : IsDistinct (claimed "a" 0 3 two_jobs).outbox
unfolding claim
claimed-IsDistinct = (refl, (refl, tt))
