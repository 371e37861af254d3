-- ===== src/Oracle/Outbox/Calls.antt =====
-- The calls that write the outbox (prototypes/xano/reference_model.py), and what they keep of a job.
use new_logistic.Prelude.{
  ℕ, ◌+◌, ◌≡◌, refl, sym, subst, String, Bool, true, false, none, some, List, [], ◌∷◌, ◌++◌, arith,
  ◌==◌, nat_eq, Bool-cases, Option-cases, ◌⊎◌, inl, inr, not, ◌&&◌, ltb, leb, string_eq, eq_refl,
}
use new_logistic.Oracle.{Job, Db, ok, find, update, any, rowcount, transaction}
use new_logistic.Oracle.Outbox.{
  is_free, next_id, Lease, claim, acknowledge, insert_job, is_held, leased,
}
use new_logistic.Oracle.Outbox.Rows.{
  job_at, IsDistinct, free_at, job_at-id, job_at-update, IsDistinct-update, job_at-append,
  job_at-next_id, IsDistinct-append,
}

-- The calls that write the outbox.
pub data Op : Type 0 where
  claims : String → ℕ → ℕ → Op
  acknowledges : Lease → String → ℕ → Op
  inserts : String → Op

abbrev pub exec : Op → Db → Db
exec (claims token now ttl) db = (claim token now ttl db).1
exec (acknowledges lease token now) db = (acknowledge lease token now db).1
exec (inserts subject) db = (transaction (insert_job subject) db).1

abbrev pub exec_all : List Op → Db → Db
exec_all [] db = db
exec_all (op ∷ ops) db = exec_all ops (exec op db)

-- The job with id `i` is there and meets `P`.
abbrev pub holds_at : (Job → Bool) → ℕ → List Job → Bool
holds_at P i jobs = elim (job_at i jobs) [ none ↦ false | some j ↦ P j ]

-- The call keeps `P` of a job that has it.
abbrev pub Safe : (Job → Bool) → Op → Type 0
Safe P (claims token now ttl) =
    (j : Job) → is_free now j ≡ true → P j ≡ true → P (leased token (now + ttl) j) ≡ true
Safe P (acknowledges lease token now) = (j : Job) → P j ≡ true → P (record j { done = true }) ≡ true
Safe P (inserts subject) = Unit

-- The job that a claim takes, and the outbox that it leaves.
abbrev Taken : String → ℕ → ℕ → List Job → List Job → Type 0
Taken token now ttl jobs jobs' =
    (j : Job) × ((find (is_free now) jobs ≡ some j)
      × (jobs' ≡ update (λ k. k.id == j.id) (leased token (now + ttl)) jobs))

claim-outbox :
    (token : String) (now ttl : ℕ) (db : Db)
    → ((claim token now ttl db).1.outbox ≡ db.outbox)
      ⊎ Taken token now ttl db.outbox (claim token now ttl db).1.outbox
unfolding claim
claim-outbox token now ttl db = elim (Bool-cases (not (token == "") && ltb 0 ttl && leb ttl 5)) [
  | inl good ↦ elim (Option-cases (find (is_free now) db.outbox)) [
    | inl free ↦ inl (ground (arith))
    | inr free ↦ inr (free.0, (free.1, ground (arith, free.1)))
  ]
  | inr bad ↦ inl (ground (arith))
]

acknowledge-outbox :
    (lease : Lease) (token : String) (now : ℕ) (db : Db)
    → ((acknowledge lease token now db).1.outbox ≡ db.outbox)
      ⊎ ((acknowledge lease token now db).1.outbox
          ≡ update (is_held lease token now) (λ j. record j { done = true }) db.outbox)
unfolding acknowledge
acknowledge-outbox lease token now db =
    elim (Bool-cases (rowcount (is_held lease token now) db.outbox == 1)) [
      | inl one ↦ inr (ground (arith))
      | inr other ↦ inl (ground (arith))
    ]

new_job : String → List Job → Job
new_job subject jobs = record {
  id = next_id jobs;
  subject = subject;
  lease = none;
  until_at = 0;
  done = false;
  generation = 0;
}

insert_job-outbox :
    (subject : String) (db : Db)
    → ((transaction (insert_job subject) db).1.outbox ≡ db.outbox)
      ⊎ ((transaction (insert_job subject) db).1.outbox
          ≡ db.outbox ++ new_job subject db.outbox ∷ [])
unfolding insert_job new_job
insert_job-outbox subject db = elim (Bool-cases (any (λ j. j.subject == subject) db.outbox)) [
  | inl old ↦ inl (ground (arith))
  | inr new ↦ inr (ground (arith))
]

new_job-id : (subject : String) (jobs : List Job) → (new_job subject jobs).id ≡ next_id jobs
unfolding new_job
new_job-id subject jobs = refl

-- A call keeps the ids of the jobs distinct.
pub exec-IsDistinct : (op : Op) (db : Db) → IsDistinct db.outbox → IsDistinct (exec op db).outbox
exec-IsDistinct (claims token now ttl) db d = elim (claim-outbox token now ttl db) [
  | inl same ↦ subst IsDistinct (sym same) d
  | inr taken ↦ subst IsDistinct (sym taken.1.1) (
      IsDistinct-update (λ k. k.id == taken.0.id) (leased token (now + ttl)) db.outbox (λ j. refl)
        d)
]
exec-IsDistinct (acknowledges lease token now) db d = elim (acknowledge-outbox lease token now db) [
  | inl same ↦ subst IsDistinct (sym same) d
  | inr new ↦ subst IsDistinct (sym new) (
      IsDistinct-update (is_held lease token now) (λ j. record j { done = true }) db.outbox
        (λ j. refl) d)
]
exec-IsDistinct (inserts subject) db d = elim (insert_job-outbox subject db) [
  | inl same ↦ subst IsDistinct (sym same) d
  | inr new ↦ subst IsDistinct (sym new) (
      IsDistinct-append db.outbox (new_job subject db.outbox) d (
        job_at-next_id (new_job subject db.outbox).id db.outbox
          (ground (arith, new_job-id subject db.outbox))))
]

-- What holds of a job after a change of every row that a condition picks.
holds_at-update :
    (P : Job → Bool) (i : ℕ) (p : Job → Bool) (f : Job → Job) (jobs : List Job)
    → ((j : Job) → (f j).id ≡ j.id)
    → ((j : Job) → job_at i jobs ≡ some j → p j ≡ true → P j ≡ true → P (f j) ≡ true)
    → holds_at P i jobs ≡ true
    → holds_at P i (update p f jobs) ≡ true
holds_at-update P i p f jobs ids keeps h = elim (Option-cases (job_at i jobs)) [
  | inl missing ↦ ground (arith, missing, job_at-update i p f jobs ids)
  | inr there ↦
      ground (
        arith,
        there.1,
        job_at-update i p f jobs ids,
        keeps there.0 there.1,
        Bool-cases (p there.0),
      )
]

pub exec-holds_at :
    (P : Job → Bool) (i : ℕ) (op : Op) (db : Db)
    → Safe P op
    → IsDistinct db.outbox
    → holds_at P i db.outbox ≡ true
    → holds_at P i (exec op db).outbox ≡ true
exec-holds_at P i (claims token now ttl) db safe d h = elim (claim-outbox token now ttl db) [
  | inl same ↦ subst (λ jobs. holds_at P i jobs ≡ true) (sym same) h
  | inr taken ↦
      let free = free_at now db.outbox d taken.1.0 in
      subst (λ jobs. holds_at P i jobs ≡ true) (sym taken.1.1)
        (holds_at-update P i (λ k. k.id == taken.0.id) (leased token (now + ttl)) db.outbox
          (λ j. refl)
          (λ j there hit holds. ground (arith, free.0, free.1, job_at-id i db.outbox there, safe j))
          h)
]
exec-holds_at P i (acknowledges lease token now) db safe d h =
    elim (acknowledge-outbox lease token now db) [
      | inl same ↦ subst (λ jobs. holds_at P i jobs ≡ true) (sym same) h
      | inr new ↦
          subst (λ jobs. holds_at P i jobs ≡ true) (sym new)
            (holds_at-update P i (is_held lease token now) (λ j. record j { done = true }) db.outbox
              (λ j. refl) (λ j there hit. safe j) h)
    ]
exec-holds_at P i (inserts subject) db safe d h = elim (insert_job-outbox subject db) [
  | inl same ↦ subst (λ jobs. holds_at P i jobs ≡ true) (sym same) h
  | inr new ↦
      subst (λ jobs. holds_at P i jobs ≡ true) (sym new)
        (ground (arith, job_at-append i db.outbox (new_job subject db.outbox)))
]

-- Every call keeps `P`.
abbrev pub AllSafe : (Job → Bool) → List Op → Type 0
AllSafe P [] = Unit
AllSafe P (op ∷ ops) = Safe P op × AllSafe P ops

pub exec_all-IsDistinct :
    (ops : List Op) (db : Db) → IsDistinct db.outbox → IsDistinct (exec_all ops db).outbox
exec_all-IsDistinct [] db d = d
exec_all-IsDistinct (op ∷ ops) db d = exec_all-IsDistinct ops (exec op db) (exec-IsDistinct op db d)

pub exec_all-holds_at :
    (P : Job → Bool) (i : ℕ) (ops : List Op) (db : Db)
    → AllSafe P ops
    → IsDistinct db.outbox
    → holds_at P i db.outbox ≡ true
    → holds_at P i (exec_all ops db).outbox ≡ true
exec_all-holds_at P i [] db safe d h = h
exec_all-holds_at P i (op ∷ ops) db safe d h =
    exec_all-holds_at P i ops (exec op db) safe.1 (exec-IsDistinct op db d)
      (exec-holds_at P i op db safe.0 d h)

-- The job that a lease names, after its claim.
abbrev pub is_granted : Lease → String → ℕ → Job → Bool
is_granted lease token until j =
    j.generation == lease.generation
    && elim j.lease [ none ↦ false | some t ↦ t == token ]
    && j.until_at == until
    && not j.done

pub claim-holds_at :
    (token : String) (now ttl : ℕ) (db : Db) (lease : Lease)
    → IsDistinct db.outbox
    → (claim token now ttl db).0 ≡ ok (some lease)
    → (holds_at (is_granted lease token (now + ttl)) lease.job (claim token now ttl db).1.outbox
        ≡ true)
      × (holds_at (λ j. is_free now j && j.generation + 1 == lease.generation) lease.job db.outbox
          ≡ true)
unfolding claim
claim-holds_at token now ttl db lease d e =
    elim (Bool-cases (not (token == "") && ltb 0 ttl && leb ttl 5)) [
      | inl good ↦ elim (Option-cases (find (is_free now) db.outbox)) [
        | inl free ↦ absurd (ground (arith))
        | inr free ↦
            let there = free_at now db.outbox d free.1 in
            let named : lease.job ≡ free.0.id = ground (arith) in
            let grown : lease.generation ≡ free.0.generation + 1 = ground (arith) in
            (
              ground (
                arith,
                there.0,
                there.1,
                eq_refl token,
                job_at-update free.0.id (λ k. k.id == free.0.id) (leased token (now + ttl))
                    db.outbox (λ j. refl),
              ),
              ground (arith, there.0, there.1),
            )
      ]
      | inr bad ↦ absurd (ground (arith))
    ]
