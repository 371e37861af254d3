-- ===== src/Recommend/Decisions.antt =====
-- workers/src/zippy_workers/recommendation_reviews.py: the decision of a reviewer, and sequences of calls.
pub mod Effects
pub mod Runs
pub mod Again
use new_logistic.Prelude.{
  ℕ, String, Bool, true, false, not, Option, none, some, List, [], ◌∷◌, ◌&&◌, ◌||◌, ◌==◌, string_eq,
  ltb, elem, if◌then◌else◌,
}
use new_logistic.Prelude.Dict.{lookup, insert}
use new_logistic.Recommend.{RecommendationResult}
use new_logistic.Recommend.Reviews.{
  FakeReviewer, human_a, human_b, Status, pending, accepted, rejected, expired, unauthorized,
  conflict, stale, too_late, value_error, Snapshot, Review, Creation, Submission, Store, Answer,
  returned, raised, Act, give, fail, ensure, nonempty, same_snapshot, same_submission, if_known,
  finish_create, is_pending, is_expired, with_record, in_order, get,
}

-- The arguments of `review`.
pub record Request : Type 0 where
  pub review_id : String
  pub current_snapshot : Snapshot
  pub reviewer : FakeReviewer
  pub decision : String
  pub advisory_preference : Option String
  pub idempotency_key : String
  pub now : ℕ

abbrev pub is_human : FakeReviewer → Bool
is_human human_a = true
is_human human_b = true
is_human _ = false

abbrev pub status_of : String → Status
status_of decision = if decision == "accepted" then accepted else rejected

-- An acceptance names one of the recommended candidates, and a rejection names none.
abbrev pub fits : List String → String → Option String → Bool
fits ids decision none = not (decision == "accepted")
fits ids decision (some id) = decision == "accepted" && elem id ids

abbrev pub submission_of : Request → Submission
submission_of q = record {
  review_id = q.review_id;
  snapshot = q.current_snapshot;
  reviewer = q.reviewer;
  decision = q.decision;
  advisory_preference = q.advisory_preference;
}

abbrev pub decided : Request → Review → Review
decided q r = record r {
  status = status_of q.decision;
  reviewer = some q.reviewer;
  advisory_preference = q.advisory_preference;
  idempotency_key = some q.idempotency_key;
  updated_at = q.now;
}

abbrev pub store_decision : Request → Review → Store → Store
store_decision q r s = record s {
  records = insert q.review_id r s.records;
  submissions = insert q.idempotency_key (submission_of q, r) s.submissions;
}

-- The end of `review`, on the record as it is now.
abbrev pub settle : Request → Review → Act
settle q r = ensure (not (is_expired r.status)) too_late (
    ensure (is_pending r.status) conflict
      (λ s. (returned (decided q r), store_decision q (decided q r) s)))

abbrev pub and_settle : Request → Answer × Store → Answer × Store
and_settle q (raised error, s) = (raised error, s)
and_settle q (returned r, s) = settle q r s

-- A decision that was submitted under the key before.
abbrev pub replay : Request → Submission × Review → Act
replay q (previous, result) =
    ensure (same_submission previous (submission_of q)) conflict (give result)

-- `review` on the record that it finds.
abbrev pub judge : Request → Review → Act
judge q r = ensure (in_order q.now r) value_error (
    ensure (same_snapshot q.current_snapshot r.snapshot) stale (
      ensure (q.decision == "accepted" || q.decision == "rejected") value_error (
        ensure (fits r.recommendation.candidate_ids q.decision q.advisory_preference) value_error
          (λ s.
            if_known (lookup q.idempotency_key s.submissions) (replay q)
              (λ s. and_settle q (get q.review_id q.now s)) s))))

unfoldable pub review : Request → Act
review q = ensure (is_human q.reviewer) unauthorized (
    ensure (nonempty q.idempotency_key) value_error
      (λ s. with_record (lookup q.review_id s.records) (judge q) s))

-- A call that may change the store: the end of a creation whose inputs were checked, a read, a decision.
pub data Step : Type 0 where
  creating : String → Creation → RecommendationResult → Step
  reading : String → ℕ → Step
  reviewing : Request → Step

unfoldable pub run_step : Step → Store → Store
run_step (creating review_id c advisory) s =
    if nonempty review_id && ltb c.created_at c.expires_at
    then (finish_create review_id c advisory s).1
    else s
run_step (reading review_id now) s = (get review_id now s).1
run_step (reviewing q) s = (review q s).1

unfoldable pub run : List Step → Store → Store
unfolding run_step
run [] s = s
run (step ∷ steps) s = run steps (run_step step s)
