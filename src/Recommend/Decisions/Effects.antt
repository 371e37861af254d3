-- ===== src/Recommend/Decisions/Effects.antt =====
-- workers/src/zippy_workers/recommendation_reviews.py: what a call may do to the store.
use new_logistic.Prelude.{
  ℕ, String, Bool, true, false, not, ◌≡◌, refl, Option, none, some, List, ◌&&◌, ◌||◌, ◌==◌, nat_eq,
  string_eq, ltb, leb, elem, if◌then◌else◌, Bool-cases, inl, inr, arith,
}
use new_logistic.Prelude.Dict.{lookup, insert}
use new_logistic.Recommend.{RecommendationResult}
use new_logistic.Recommend.Reviews.{
  FakeReviewer, Status, pending, accepted, rejected, expired, Error, conflict, value_error,
  too_late, unauthorized, stale, Review, Creation, Store, returned, Act, give, ensure, if_known,
  new_review, store_review, replay_creation, finish_create, is_pending, is_expired, aged, put,
  with_record, in_order, get, nonempty, same_snapshot, same_creation, same_submission,
}
use new_logistic.Recommend.Decisions.{
  Request, is_human, fits, decided, store_decision, and_settle, replay, judge, review, Step,
  creating, reading, reviewing, run_step, submission_of, status_of,
}

abbrev no_reviewer : Option FakeReviewer → Bool
no_reviewer none = true
no_reviewer (some _) = false

abbrev human_reviewer : Option FakeReviewer → Bool
human_reviewer none = false
human_reviewer (some r) = is_human r

abbrev prefers : List String → Option String → Bool
prefers ids none = false
prefers ids (some id) = elem id ids

abbrev no_preference : Option String → Bool
no_preference none = true
no_preference (some _) = false

-- What a record says fits a status.
abbrev pub agrees : Status → Review → Bool
agrees pending r = r.updated_at == r.created_at && no_reviewer r.reviewer
agrees accepted r =
    human_reviewer r.reviewer
    && ltb r.updated_at r.expires_at
    && prefers r.recommendation.candidate_ids r.advisory_preference
agrees rejected r =
    human_reviewer r.reviewer
    && ltb r.updated_at r.expires_at
    && no_preference r.advisory_preference
agrees expired r = r.updated_at == r.expires_at && no_reviewer r.reviewer

-- A record that expires after it was created. A decision is a person's and was made before that, and an
-- acceptance names a recommended candidate.
abbrev pub is_sound : Review → Bool
is_sound r = ltb r.created_at r.expires_at && agrees r.status r

-- Nothing, a new pending record, or a pending record that gets decided or expires.
pub data Effect (s : Store) : Store → Type 0 where
  keeps : Effect s s
  creates :
      (id : String) (c : Creation) (r : Review)
      → lookup id s.creations ≡ none
      → is_pending r.status ≡ true
      → is_sound r ≡ true
      → Effect s (store_review id c r s)
  changes :
      (id : String) (r r' : Review) (s' : Store)
      → lookup id s.records ≡ some r
      → is_pending r.status ≡ true
      → is_pending r'.status ≡ false
      → (is_sound r ≡ true → is_sound r' ≡ true)
      → s'.records ≡ insert id r' s.records
      → s'.creations ≡ s.creations
      → Effect s s'

ensure-Effect :
    (b : Bool) (error : Error) (rest : Act) (s : Store)
    → (b ≡ true → Effect s (rest s).1)
    → Effect s (ensure b error rest s).1
ensure-Effect true error rest s h = h refl
ensure-Effect false error rest s h = keeps

with_record-Effect :
    (o : Option Review) (k : Review → Act) (s : Store)
    → ((r : Review) → o ≡ some r → Effect s (k r s).1)
    → Effect s (with_record o k s).1
with_record-Effect none k s h = keeps
with_record-Effect (some r) k s h = h r refl

if_known-Effect :
    {V : Type 0} (o : Option V) (known : V → Act) (rest : Act) (s : Store)
    → ((v : V) → Effect s (known v s).1)
    → (o ≡ none → Effect s (rest s).1)
    → Effect s (if_known o known rest s).1
if_known-Effect none known rest s h k = k refl
if_known-Effect (some v) known rest s h k = h v

finish_create-Effect :
    (id : String) (c : Creation) (advisory : RecommendationResult) (s : Store)
    → ltb c.created_at c.expires_at ≡ true
    → Effect s (finish_create id c advisory s).1
unfolding finish_create
finish_create-Effect id c advisory s later =
    if_known-Effect (lookup id s.creations) (replay_creation c) _ s
      (λ known. ensure-Effect (same_creation known.0 c) conflict (give known.1) s (λ h. keeps))
      (λ new. creates id c (new_review id c advisory) new refl (ground (arith, later)))

agrees-no_reviewer :
    (status : Status) (r : Review)
    → is_pending status ≡ true
    → agrees status r ≡ true
    → no_reviewer r.reviewer ≡ true
agrees-no_reviewer pending r h k = ground (arith, k)
agrees-no_reviewer accepted r h k = absurd (cc)
agrees-no_reviewer rejected r h k = absurd (cc)
agrees-no_reviewer expired r h k = absurd (cc)

expired_record : Review → Review
expired_record r = record r { status = expired; updated_at = r.expires_at }

expired-is_sound :
    (r : Review)
    → is_pending r.status ≡ true
    → is_sound r ≡ true
    → is_sound (expired_record r) ≡ true
unfolding expired_record
expired-is_sound r h k =
    let free = agrees-no_reviewer r.status r h (ground (arith, k)) in ground (arith, k, free)

fits-prefers :
    (ids : List String) (decision : String) (o : Option String)
    → fits ids decision o ≡ true
    → decision == "accepted" ≡ true
    → prefers ids o ≡ true
fits-prefers ids decision none h k = absurd (ground (arith, h, k))
fits-prefers ids decision (some id) h k = ground (arith, h)

fits-no_preference :
    (ids : List String) (decision : String) (o : Option String)
    → fits ids decision o ≡ true
    → decision == "accepted" ≡ false
    → no_preference o ≡ true
fits-no_preference ids decision none h k = refl
fits-no_preference ids decision (some id) h k = absurd (ground (arith, h, k))

-- A record that has expired by now is written back as expired.
refresh-Effect :
    (id : String) (now : ℕ) (r : Review) (s : Store)
    → lookup id s.records ≡ some r
    → Effect s (if is_pending r.status && leb r.expires_at now then put id (aged now r) s else s)
unfolding expired_record
refresh-Effect id now r s found = elim (Bool-cases (is_pending r.status && leb r.expires_at now)) [
  | inl due ↦ rw (due) (
      changes id r (expired_record r) _ found (ground (arith, due)) refl
        (expired-is_sound r (ground (arith, due))) refl refl)
  | inr fresh ↦ rw (fresh) keeps
]

get-Effect : (id : String) (now : ℕ) (s : Store) → Effect s (get id now s).1
unfolding get
get-Effect id now s = with_record-Effect (lookup id s.records) _ s (λ r found.
    ensure-Effect (in_order now r) value_error _ s (λ h. refresh-Effect id now r s found))

-- What `get` gives for a record.
pub get-aged :
    (id : String) (now : ℕ) (r : Review) (s : Store)
    → lookup id s.records ≡ some r
    → in_order now r ≡ true
    → get id now s ≡ (
      returned (aged now r),
      if is_pending r.status && leb r.expires_at now then put id (aged now r) s else s,
    )
unfolding get
get-aged id now r s found order = rw (found, order) refl

decided-is_sound :
    (q : Request) (r : Review)
    → is_human q.reviewer ≡ true
    → fits r.recommendation.candidate_ids q.decision q.advisory_preference ≡ true
    → ltb q.now r.expires_at ≡ true
    → is_sound r ≡ true
    → is_sound (decided q r) ≡ true
decided-is_sound q r human fit before sound = elim (Bool-cases (q.decision == "accepted")) [
  | inl accepts ↦
      let named =
        fits-prefers r.recommendation.candidate_ids q.decision q.advisory_preference fit accepts in
      rw (accepts) (ground (arith, sound, human, before, named))
  | inr rejects ↦
      let unnamed =
        fits-no_preference r.recommendation.candidate_ids q.decision q.advisory_preference fit
          rejects in
      rw (rejects) (ground (arith, sound, human, before, unnamed))
]

decided_finally : (q : Request) → is_pending (status_of q.decision) ≡ false
decided_finally q = elim (Bool-cases (q.decision == "accepted")) [
  | inl accepts ↦ rw (accepts) refl
  | inr rejects ↦ rw (rejects) refl
]

settle-Effect :
    (q : Request) (r : Review) (s : Store)
    → is_human q.reviewer ≡ true
    → fits r.recommendation.candidate_ids q.decision q.advisory_preference ≡ true
    → lookup q.review_id s.records ≡ some r
    → in_order q.now r ≡ true
    → Effect s (and_settle q (get q.review_id q.now s)).1
unfolding expired_record
settle-Effect q r s human fit found order =
    elim (Bool-cases (is_pending r.status && leb r.expires_at q.now)) [
      | inl due ↦
          rw (get-aged q.review_id q.now r s found order, due)
            (changes q.review_id r (expired_record r) _ found (ground (arith, due)) refl
              (expired-is_sound r (ground (arith, due))) refl refl)
      | inr fresh ↦
          rw (get-aged q.review_id q.now r s found order, fresh)
            (ensure-Effect (not (is_expired r.status)) too_late _ s (λ alive.
              ensure-Effect (is_pending r.status) conflict _ s (λ waiting.
                changes q.review_id r (decided q r) (store_decision q (decided q r) s) found waiting
                  (decided_finally q)
                  (decided-is_sound q r human fit (ground (arith, fresh, waiting))) refl refl)))
    ]

review-Effect : (q : Request) (s : Store) → Effect s (review q s).1
unfolding review
review-Effect q s = ensure-Effect (is_human q.reviewer) unauthorized _ s (λ human.
    ensure-Effect (nonempty q.idempotency_key) value_error _ s (λ key.
      with_record-Effect (lookup q.review_id s.records) (judge q) s (λ r found.
        ensure-Effect (in_order q.now r) value_error _ s (λ order.
          ensure-Effect (same_snapshot q.current_snapshot r.snapshot) stale _ s (λ same.
            ensure-Effect (q.decision == "accepted" || q.decision == "rejected") value_error _ s
              (λ known.
                ensure-Effect (fits r.recommendation.candidate_ids q.decision q.advisory_preference)
                  value_error _ s
                  (λ fit.
                    if_known-Effect (lookup q.idempotency_key s.submissions) (replay q) _ s
                      (λ before.
                        ensure-Effect (same_submission before.0 (submission_of q)) conflict
                          (give before.1) s (λ h. keeps))
                      (λ new. settle-Effect q r s human fit found order))))))))

-- Each call has one of the three effects.
pub run_step-Effect : (step : Step) (s : Store) → Effect s (run_step step s)
unfolding run_step
run_step-Effect (creating id c advisory) s =
    elim (Bool-cases (nonempty id && ltb c.created_at c.expires_at)) [
      | inl h ↦ rw (h) (finish_create-Effect id c advisory s (ground (arith, h)))
      | inr h ↦ rw (h) keeps
    ]
run_step-Effect (reading id now) s = get-Effect id now s
run_step-Effect (reviewing q) s = review-Effect q s
