-- ===== src/Oracle/Outbox/Rows.antt =====
-- The rows of the outbox (prototypes/xano/reference_model.py) by their ids.
use mathlib.Core.Option
use new_logistic.Prelude.{
  ℕ, ◌≤◌, ◌≡◌, refl, Bool, true, Option, none, some, List, [], ◌∷◌, ◌++◌, arith, ◌==◌, nat_eq,
  if◌then◌else◌, Bool-cases, inl, inr,
}
use new_logistic.Oracle.{Job, find, update}
use new_logistic.Oracle.Outbox.{is_free, next_id}

abbrev pub job_at : ℕ → List Job → Option Job
job_at i = find (λ k. k.id == i)

pub job_at-id : (i : ℕ) (jobs : List Job) {j : Job} → job_at i jobs ≡ some j → j.id ≡ i
job_at-id i [] e = absurd (ground (arith))
job_at-id i (k ∷ jobs) {j} e = ground (arith, job_at-id i jobs {j = j}, Bool-cases (k.id == i))

abbrev pub IsDistinct : List Job → Type 0
IsDistinct [] = Unit
IsDistinct (j ∷ jobs) = (job_at j.id jobs ≡ none) × IsDistinct jobs

-- A free row that is found is the row of its id.
pub free_at :
    (now : ℕ) (jobs : List Job) {j : Job}
    → IsDistinct jobs
    → find (is_free now) jobs ≡ some j
    → (job_at j.id jobs ≡ some j) × (is_free now j ≡ true)
free_at now [] h e = absurd (cc)
free_at now (k ∷ jobs) {j} h e = elim (Bool-cases (is_free now k)) [
  | inl free ↦ let same : k ≡ j = ground arith in ground (arith, free, same)
  | inr busy ↦
      let ih = free_at now jobs {j = j} h.1 (ground arith) in
      elim (Bool-cases (k.id == j.id)) [
        | inl same ↦ ground (arith, ih.0, h.0, same)
        | inr other ↦ ground (arith, ih.0, ih.1, other)
      ]
]

pub job_at-update :
    (i : ℕ) (p : Job → Bool) (f : Job → Job) (jobs : List Job)
    → ((j : Job) → (f j).id ≡ j.id)
    → job_at i (update p f jobs) ≡ Option.map (λ j. if p j then f j else j) (job_at i jobs)
job_at-update i p f [] h = refl
job_at-update i p f (j ∷ jobs) h = ground (arith, h j, job_at-update i p f jobs h)

pub IsDistinct-update :
    (p : Job → Bool) (f : Job → Job) (jobs : List Job)
    → ((j : Job) → (f j).id ≡ j.id)
    → IsDistinct jobs
    → IsDistinct (update p f jobs)
IsDistinct-update p f [] h d = tt
IsDistinct-update p f (j ∷ jobs) h d =
    ground (arith, h j, job_at-update j.id p f jobs h, IsDistinct-update p f jobs h d.1)

pub job_at-append :
    (i : ℕ) (jobs : List Job) (new : Job)
    → job_at i (jobs ++ new ∷ [])
      ≡ elim (job_at i jobs) [ none ↦ if new.id == i then some new else none | some j ↦ some j ]
job_at-append i [] new = refl
job_at-append i (j ∷ jobs) new = ground (arith, job_at-append i jobs new)

pub job_at-next_id : (i : ℕ) (jobs : List Job) → next_id jobs ≤ i → job_at i jobs ≡ none
job_at-next_id i [] h = refl
job_at-next_id i (j ∷ jobs) h = ground (arith, job_at-next_id i jobs)

pub IsDistinct-append :
    (jobs : List Job) (new : Job)
    → IsDistinct jobs
    → job_at new.id jobs ≡ none
    → IsDistinct (jobs ++ new ∷ [])
IsDistinct-append [] new d h = (refl, tt)
IsDistinct-append (j ∷ jobs) new d h =
    ground (arith, job_at-append j.id jobs new, IsDistinct-append jobs new d.1)
