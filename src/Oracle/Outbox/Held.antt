-- ===== src/Oracle/Outbox/Held.antt =====
-- What the calls keep of a job that is leased (prototypes/xano/reference_model.py).
use new_logistic.Prelude.{
  ℕ, ◌+◌, ◌<◌, ◌≡◌, refl, subst, String, Bool, true, false, none, some, List, [], ◌∷◌, arith, ◌==◌,
  nat_eq, if◌then◌else◌, Bool-cases, Option-cases, inl, inr, not, ◌&&◌, leb, string_eq,
}
use new_logistic.Oracle.{Job, Db, ok, err, stale_lease, rowcount}
use new_logistic.Oracle.Outbox.{is_free, Lease, claim, acknowledge, is_held}
use new_logistic.Oracle.Outbox.Rows.{job_at, IsDistinct, job_at-id, job_at-update}
use new_logistic.Oracle.Outbox.Calls.{
  Op, claims, acknowledges, inserts, exec_all, holds_at, AllSafe, exec-IsDistinct, exec-holds_at,
  exec_all-holds_at, is_granted, claim-holds_at,
}

-- No row that the condition picks, since its id is missing.
rowcount-none :
    (i : ℕ) (p : Job → Bool) (jobs : List Job)
    → ((j : Job) → p j ≡ true → j.id ≡ i)
    → job_at i jobs ≡ none
    → rowcount p jobs ≡ 0
rowcount-none i p [] only h = refl
rowcount-none i p (j ∷ jobs) only h =
    ground (arith, only j, rowcount-none i p jobs only, Bool-cases (p j))

pub rowcount-holds_at :
    (i : ℕ) (p : Job → Bool) (P : Job → Bool) (b : Bool) (jobs : List Job)
    → ((j : Job) → p j ≡ true → j.id ≡ i)
    → ((j : Job) → j.id ≡ i → P j ≡ true → p j ≡ b)
    → IsDistinct jobs
    → holds_at P i jobs ≡ true
    → rowcount p jobs ≡ (if b then 1 else 0)
rowcount-holds_at i p P b [] only picks d h = absurd (ground (arith))
rowcount-holds_at i p P b (j ∷ jobs) only picks d h = elim (Bool-cases (j.id == i)) [
  | inl here ↦
      let same : j.id ≡ i = ground (arith) in
      let gone = rowcount-none i p jobs only (subst (λ k. job_at k jobs ≡ none) same d.0) in
      ground (arith, here, picks j same, gone)
  | inr there ↦
      ground (arith, there, only j, rowcount-holds_at i p P b jobs only picks d.1, Bool-cases (p j))
]

pub is_held-id :
    (lease : Lease) (token : String) (now : ℕ) (j : Job)
    → is_held lease token now j ≡ true
    → j.id ≡ lease.job
is_held-id lease token now j e = ground (arith)

-- No call touches the generation of a job but to raise it.
pub reached-AllSafe : (g : ℕ) (ops : List Op) → AllSafe (λ j. leb g j.generation) ops
reached-AllSafe g [] = tt
reached-AllSafe g (claims token now ttl ∷ ops) = (λ j free e. ground (arith), reached-AllSafe g ops)
reached-AllSafe g (acknowledges lease token now ∷ ops) = (λ j e. e, reached-AllSafe g ops)
reached-AllSafe g (inserts subject ∷ ops) = (tt, reached-AllSafe g ops)

pub finished-AllSafe : (ops : List Op) → AllSafe (λ j. j.done) ops
finished-AllSafe [] = tt
finished-AllSafe (claims token now ttl ∷ ops) = (λ j free e. ground (arith), finished-AllSafe ops)
finished-AllSafe (acknowledges lease token now ∷ ops) = (λ j e. refl, finished-AllSafe ops)
finished-AllSafe (inserts subject ∷ ops) = (tt, finished-AllSafe ops)

-- Each claim among the calls stands before `until`.
abbrev pub AllBefore : ℕ → List Op → Type 0
AllBefore until [] = Unit
AllBefore until (claims token now ttl ∷ ops) = (now < until) × AllBefore until ops
AllBefore until (acknowledges lease token now ∷ ops) = AllBefore until ops
AllBefore until (inserts subject ∷ ops) = AllBefore until ops

-- The lease as it was given, the job done since or not.
abbrev pub is_kept : Lease → String → ℕ → Job → Bool
is_kept lease token until j =
    j.generation == lease.generation
    && elim j.lease [ none ↦ false | some t ↦ t == token ]
    && j.until_at == until

kept-AllSafe :
    (lease : Lease) (token : String) (until : ℕ) (ops : List Op)
    → AllBefore until ops
    → AllSafe (is_kept lease token until) ops
kept-AllSafe lease token until [] before = tt
kept-AllSafe lease token until (claims t now ttl ∷ ops) before =
    (λ j free e. ground (arith), kept-AllSafe lease token until ops before.1)
kept-AllSafe lease token until (acknowledges l t now ∷ ops) before =
    (λ j e. e, kept-AllSafe lease token until ops before)
kept-AllSafe lease token until (inserts subject ∷ ops) before =
    (tt, kept-AllSafe lease token until ops before)

pub holds_at-weaken :
    (P Q : Job → Bool) (i : ℕ) (jobs : List Job)
    → ((j : Job) → P j ≡ true → Q j ≡ true)
    → holds_at P i jobs ≡ true
    → holds_at Q i jobs ≡ true
holds_at-weaken P Q i jobs h e = elim (Option-cases (job_at i jobs)) [
  | inl missing ↦ absurd (ground (arith, missing))
  | inr there ↦ ground (arith, there.1, h there.0)
]

-- What a claim in good order takes was not in the state `P` if no free job is.
pub not-claimed :
    (P : Job → Bool) (token : String) (now ttl : ℕ) (db : Db) (lease : Lease)
    → ((j : Job) → P j ≡ true → is_free now j ≡ false)
    → IsDistinct db.outbox
    → (claim token now ttl db).0 ≡ ok (some lease)
    → holds_at P lease.job db.outbox ≡ false
not-claimed P token now ttl db lease busy d e =
    let was = (claim-holds_at token now ttl db lease d e).1 in
    elim (Option-cases (job_at lease.job db.outbox)) [
      | inl missing ↦ ground (arith, missing)
      | inr there ↦ ground (arith, there.1, was, busy there.0, Bool-cases (P there.0))
    ]

pub acknowledge-stale :
    (lease : Lease) (token : String) (now : ℕ) (db : Db)
    → rowcount (is_held lease token now) db.outbox ≡ 0
    → acknowledge lease token now db ≡ (err stale_lease, db)
unfolding acknowledge
acknowledge-stale lease token now db e = ground (arith, e)

-- The database after a claim.
abbrev pub claimed : String → ℕ → ℕ → Db → Db
claimed token now ttl db = (claim token now ttl db).1

-- A claim leaves the lease that it gives.
pub claim-kept :
    (token : String) (now ttl : ℕ) (db : Db) (lease : Lease) (ops : List Op)
    → IsDistinct db.outbox
    → (claim token now ttl db).0 ≡ ok (some lease)
    → AllBefore (now + ttl) ops
    → holds_at
        (is_kept lease token (now + ttl))
        lease.job
        (exec_all ops (claimed token now ttl db)).outbox
      ≡ true
claim-kept token now ttl db lease ops d e before =
    exec_all-holds_at (is_kept lease token (now + ttl)) lease.job ops (claimed token now ttl db)
      (kept-AllSafe lease token (now + ttl) ops before)
      (exec-IsDistinct (claims token now ttl) db d)
      (holds_at-weaken (is_granted lease token (now + ttl)) (is_kept lease token (now + ttl))
        lease.job (claimed token now ttl db).outbox (λ j h. ground (arith))
        (claim-holds_at token now ttl db lease d e).0)

pub acknowledge-held :
    (lease : Lease) (token : String) (now : ℕ) (db : Db)
    → IsDistinct db.outbox
    → holds_at (is_held lease token now) lease.job db.outbox ≡ true
    → holds_at (λ j. j.done) lease.job (acknowledge lease token now db).1.outbox ≡ true
unfolding acknowledge
acknowledge-held lease token now db d h =
    let count =
      rowcount-holds_at lease.job (is_held lease token now) (is_held lease token now) true db.outbox
        (is_held-id lease token now) (λ j same e. e) d h in
    elim (Option-cases (job_at lease.job db.outbox)) [
      | inl missing ↦ absurd (ground (arith, missing))
      | inr there ↦ ground (
        arith,
        count,
        there.1,
        job_at-update lease.job (is_held lease token now) (λ j. record j { done = true }) db.outbox
            (λ j. refl),
      )
    ]

-- An acknowledgement in time leaves the job done.
pub acknowledge-kept :
    (lease : Lease) (token : String) (until now : ℕ) (db : Db)
    → IsDistinct db.outbox
    → now < until
    → holds_at (is_kept lease token until) lease.job db.outbox ≡ true
    → holds_at (λ j. j.done) lease.job (acknowledge lease token now db).1.outbox ≡ true
acknowledge-kept lease token until now db d soon h =
    elim (Option-cases (job_at lease.job db.outbox)) [
      | inl missing ↦ absurd (ground (arith, missing))
      | inr there ↦ elim (Bool-cases there.0.done) [
        | inl done ↦
            exec-holds_at (λ j. j.done) lease.job (acknowledges lease token now) db (λ j e. refl) d
              (ground (arith, there.1, done))
        | inr undone ↦
            acknowledge-held lease token now db d
              (ground (arith, there.1, undone, job_at-id lease.job db.outbox there.1))
      ]
    ]

-- What an acknowledgement has accepted was held.
pub accepted-held :
    (lease : Lease) (token : String) (now : ℕ) (db : Db)
    → IsDistinct db.outbox
    → (acknowledge lease token now db).0 ≡ ok tt
    → holds_at (is_held lease token now) lease.job db.outbox ≡ true
accepted-held lease token now db d e =
    elim (Bool-cases (holds_at (is_held lease token now) lease.job db.outbox)) [
      | inl held ↦ held
      | inr free ↦ elim (Option-cases (job_at lease.job db.outbox)) [
        | inl missing ↦
            let none_held =
              rowcount-none lease.job (is_held lease token now) db.outbox
                (is_held-id lease token now) missing in
            absurd (ground (arith, acknowledge-stale lease token now db none_held))
        | inr there ↦
            let none_held =
              rowcount-holds_at lease.job (is_held lease token now)
                (λ j. not (is_held lease token now j)) false db.outbox (is_held-id lease token now)
                (λ j same h. ground (arith)) d (ground (arith, there.1, free)) in
            absurd (ground (arith, acknowledge-stale lease token now db none_held))
      ]
    ]
