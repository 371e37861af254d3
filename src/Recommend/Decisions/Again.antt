-- ===== src/Recommend/Decisions/Again.antt =====
-- workers/src/zippy_workers/recommendation_reviews.py: a decision that is sent again.
use new_logistic.Prelude.{
  ℕ, ◌≤◌, String, Bool, true, false, not, ◌≡◌, refl, sym, subst, ap, ◌∙◌, Option, none, some, List,
  [], ◌∷◌, ◌&&◌, ◌||◌, ◌==◌, string_eq, leb, if◌then◌else◌, Bool-cases, ◌⊎◌, inl, inr, arith,
  eq_refl,
}
use new_logistic.Prelude.Dict.{lookup}
use new_logistic.Recommend.{SyntheticMatch}
use new_logistic.Recommend.Reviews.{
  FakeReviewer, expired, human_a, human_b, synthetic_agent, outsider, Review, Submission, Store,
  Error, returned, Act, give, ensure, nonempty, same_snapshot, same_matches, same_option,
  same_reviewer, same_submission, if_known, is_pending, is_expired, put, with_record, in_order, get,
  unauthorized, value_error, stale, conflict, too_late,
}
use new_logistic.Recommend.Decisions.{
  Request, is_human, fits, submission_of, decided, store_decision, settle, and_settle, replay,
  judge, review,
}
use new_logistic.Recommend.Decisions.Effects.{get-aged}
use new_logistic.Recommend.Decisions.Runs.{insert-found}

same_option_refl : (o : Option String) → same_option o o ≡ true
same_option_refl none = refl
same_option_refl (some s) = eq_refl s

same_matches_refl : (ms : List SyntheticMatch) → same_matches ms ms ≡ true
unfolding same_matches
same_matches_refl [] = refl
same_matches_refl (m ∷ ms) =
    rw (same_option_refl m.distance_m, same_option_refl m.score) (same_matches_refl ms)

same_reviewer_refl : (r : FakeReviewer) → same_reviewer r r ≡ true
same_reviewer_refl human_a = refl
same_reviewer_refl human_b = refl
same_reviewer_refl synthetic_agent = refl
same_reviewer_refl outsider = refl

same_submission_refl : (x : Submission) → same_submission x x ≡ true
same_submission_refl x =
    rw
      (
        eq_refl x.review_id,
        eq_refl x.snapshot.snapshot_id,
        same_matches_refl x.snapshot.matches,
        same_reviewer_refl x.reviewer,
        eq_refl x.decision,
      )
      (same_option_refl x.advisory_preference)

-- What a call that returns a review went through.
ensure-returned :
    (b : Bool) (error : Error) (rest : Act) (s : Store) {r : Review} {s' : Store}
    → ensure b error rest s ≡ (returned r, s')
    → (b ≡ true) × (rest s ≡ (returned r, s'))
ensure-returned true error rest s h = (refl, h)
ensure-returned false error rest s h = absurd (cc)

with_record-returned :
    (o : Option Review) (k : Review → Act) (s : Store) {r : Review} {s' : Store}
    → with_record o k s ≡ (returned r, s')
    → (x : Review) × (o ≡ some x) × (k x s ≡ (returned r, s'))
with_record-returned none k s h = absurd (cc)
with_record-returned (some x) k s h = (x, refl, h)

-- The conditions that `review` checks before it looks for the submission.
abbrev Admits : Request → Store → Review → Type 0
Admits q s r =
    (is_human q.reviewer ≡ true)
    × (nonempty q.idempotency_key ≡ true)
    × (lookup q.review_id s.records ≡ some r)
    × (in_order q.now r ≡ true)
    × (same_snapshot q.current_snapshot r.snapshot ≡ true)
    × ((q.decision == "accepted" || q.decision == "rejected") ≡ true)
    × (fits r.recommendation.candidate_ids q.decision q.advisory_preference ≡ true)

-- What comes after them.
answer : Request → Act
answer q s =
    if_known (lookup q.idempotency_key s.submissions) (replay q)
      (λ s. and_settle q (get q.review_id q.now s)) s

answer_known :
    (q : Request) (s : Store) (before : Submission) (r : Review)
    → lookup q.idempotency_key s.submissions ≡ some (before, r)
    → same_submission before (submission_of q) ≡ true
    → answer q s ≡ (returned r, s)
unfolding answer
answer_known q s before r known same = rw (known, same) refl

review-Admits : (q : Request) (s : Store) (r : Review) → Admits q s r → review q s ≡ answer q s
unfolding review answer
review-Admits q s r h = rw (h.0, h.1, h.2, h.3, h.4, h.5, h.6) refl

review-returned :
    (q : Request) (s : Store) {r : Review} {s' : Store}
    → review q s ≡ (returned r, s')
    → (x : Review) × Admits q s x × (answer q s ≡ (returned r, s'))
unfolding review answer
review-returned q s h =
    let (human, h) = ensure-returned (is_human q.reviewer) unauthorized _ s h in
    let (key, h) = ensure-returned (nonempty q.idempotency_key) value_error _ s h in
    let (x, found, h) = with_record-returned (lookup q.review_id s.records) (judge q) s h in
    let (order, h) = ensure-returned (in_order q.now x) value_error _ s h in
    let (same, h) = ensure-returned (same_snapshot q.current_snapshot x.snapshot) stale _ s h in
    let (known, h) =
      ensure-returned (q.decision == "accepted" || q.decision == "rejected") value_error _ s h in
    let (fit, h) =
      ensure-returned (fits x.recommendation.candidate_ids q.decision q.advisory_preference)
        value_error _ s h in
    (x, (human, key, found, order, same, known, fit), h)

inside : {a b : Review} → returned a ≡ returned b → a ≡ b
inside h = cc

-- The end of `review`, by whether the record has expired.
SettledAt : Request → Store → Review → Review → Store → Bool → Type 0
SettledAt q s x r s' due =
    settle q (if due then record x { status = expired; updated_at = x.expires_at } else x) (
      if due
      then put q.review_id
          (if due then record x { status = expired; updated_at = x.expires_at } else x) s
      else s)
    ≡ (returned r, s')

settled_fresh :
    (q : Request) (s : Store) (x : Review) {r : Review} {s' : Store}
    → settle q x s ≡ (returned r, s')
    → (r ≡ decided q x) × (s' ≡ store_decision q (decided q x) s)
settled_fresh q s x h =
    let (alive, h') = ensure-returned (not (is_expired x.status)) too_late _ s h in
    let (waiting, h'') = ensure-returned (is_pending x.status) conflict _ s h' in
    (sym (inside (ap (λ p. p.0) h'')), sym (ap (λ p. p.1) h''))

-- A decision that is made now.
settle-returned :
    (q : Request) (s : Store) (x : Review) {r : Review} {s' : Store}
    → lookup q.review_id s.records ≡ some x
    → in_order q.now x ≡ true
    → and_settle q (get q.review_id q.now s) ≡ (returned r, s')
    → (r ≡ decided q x) × (s' ≡ store_decision q (decided q x) s)
unfolding SettledAt
settle-returned q s x {r} {s'} found order h =
    let aged_call = sym (ap (and_settle q) (get-aged q.review_id q.now x s found order)) ∙ h in
    elim (Bool-cases (is_pending x.status && leb x.expires_at q.now)) [
      | inl due ↦
          absurd (let late = subst (SettledAt q s x r s') due aged_call in ground (arith, late))
      | inr fresh ↦ settled_fresh q s x (subst (SettledAt q s x r s') fresh aged_call)
    ]

-- The submission was known, and then nothing changes, or it is made now.
answered :
    (q : Request) (s : Store) {r : Review} {s' : Store}
    → answer q s ≡ (returned r, s')
    → ((before : Submission) × (lookup q.idempotency_key s.submissions ≡ some (before, r))
        × (same_submission before (submission_of q) ≡ true)
        × (s' ≡ s))
      ⊎ (and_settle q (get q.review_id q.now s) ≡ (returned r, s'))
unfolding answer
answered q s {r} {s'} h = go (lookup q.idempotency_key s.submissions) h
  where
    go :
        (o : Option (Submission × Review))
        → if_known o (replay q) (λ t. and_settle q (get q.review_id q.now t)) s ≡ (returned r, s')
        → ((before : Submission) × (o ≡ some (before, r))
            × (same_submission before (submission_of q) ≡ true)
            × (s' ≡ s))
          ⊎ (and_settle q (get q.review_id q.now s) ≡ (returned r, s'))
    go none e = inr e
    go (some (before, x)) e =
        let (same, rest) =
          ensure-returned (same_submission before (submission_of q)) conflict (give x) s e in
        inl (
          before,
          ap (λ y. some (before, y)) (inside (ap (λ p. p.0) rest)),
          same,
          sym (ap (λ p. p.1) rest),
        )

abbrev pub at : ℕ → Request → Request
at later q = record q { now = later }

-- The same decision, sent again after it was made.
again_made :
    (q : Request) (s : Store) (x : Review) (later : ℕ)
    → q.now ≤ later
    → Admits q s x
    → review (at later q) (store_decision q (decided q x) s)
      ≡ (returned (decided q x), store_decision q (decided q x) s)
again_made q s x later after h =
    let t = store_decision q (decided q x) s in
    let admits : Admits (at later q) t (decided q x) = (
      h.0,
      h.1,
      insert-found q.review_id q.review_id (decided q x) s.records refl,
      ground (arith, after),
      h.4,
      h.5,
      h.6,
    ) in
    review-Admits (at later q) t (decided q x) admits
    ∙ answer_known (at later q) t (submission_of q) (decided q x)
        (insert-found q.idempotency_key q.idempotency_key (submission_of q, decided q x)
          s.submissions refl)
        (same_submission_refl (submission_of q))

-- A decision that was returned is returned again when the same decision is sent again, then or later, and
-- nothing changes.
pub review-again :
    (q : Request) (s s' : Store) (r : Review) (later : ℕ)
    → q.now ≤ later
    → review q s ≡ (returned r, s')
    → review (at later q) s' ≡ (returned r, s')
review-again q s s' r later after h =
    let (x, admits, answers) = review-returned q s h in
    elim (answered q s answers) [
      | inl (before, known, same, stays) ↦
          let again =
            review-Admits (at later q) s x (
              admits.0,
              admits.1,
              admits.2,
              ground (arith, admits.3, after),
              admits.4,
              admits.5,
              admits.6,
            )
            ∙ answer_known (at later q) s before r known same in
          subst (λ t. review (at later q) t ≡ (returned r, t)) (sym stays) again
      | inr made ↦
          let (is, stored) = settle-returned q s x admits.2 admits.3 made in
          subst (λ t. review (at later q) t ≡ (returned r, t)) (sym stored)
            (subst
              (λ y.
                review (at later q) (store_decision q (decided q x) s)
                ≡ (returned y, store_decision q (decided q x) s))
              (sym is) (again_made q s x later after admits))
    ]
