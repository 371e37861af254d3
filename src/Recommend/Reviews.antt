-- ===== src/Recommend/Reviews.antt =====
-- workers/src/zippy_workers/recommendation_reviews.py: the store of reviews. Times are instants. `create`
-- awaits the evaluation between two parts, which other calls may come between.
use new_logistic.Prelude.{
  ℕ, String, Bool, true, false, not, Option, none, some, List, [], ◌∷◌, ◌&&◌, ◌||◌, ◌==◌, nat_eq,
  string_eq, leb, if◌then◌else◌,
}
use new_logistic.Prelude.Text.{codes, strip, begins}
use new_logistic.Prelude.Dict.{Dict, lookup, insert}
use new_logistic.Recommend.{SyntheticMatch, RecommendationResult}

pub data FakeReviewer : Type 0 where
  human_a human_b synthetic_agent outsider : FakeReviewer

pub data Status : Type 0 where
  pending accepted rejected expired : Status

-- The exceptions that leave a call.
pub data Error : Type 0 where
  unauthorized conflict stale too_late value_error key_error : Error

pub record Snapshot : Type 0 where
  pub snapshot_id : String
  pub matches : List SyntheticMatch

pub record Review : Type 0 where
  pub review_id : String
  pub snapshot : Snapshot
  pub recommendation : RecommendationResult
  pub created_at : ℕ
  pub expires_at : ℕ
  pub updated_at : ℕ
  pub status : Status
  pub reviewer : Option FakeReviewer
  pub advisory_preference : Option String
  pub idempotency_key : Option String

-- The inputs of a creation; the agent and the limit of time by a text that says what they are.
pub record Creation : Type 0 where
  pub snapshot : Snapshot
  pub agent : String
  pub created_at : ℕ
  pub expires_at : ℕ
  pub timeout_seconds : String

pub record Submission : Type 0 where
  pub review_id : String
  pub snapshot : Snapshot
  pub reviewer : FakeReviewer
  pub decision : String
  pub advisory_preference : Option String

pub record Store : Type 0 where
  pub records : Dict Review
  pub creations : Dict (Creation × Review)
  pub submissions : Dict (Submission × Review)

unfoldable pub new_store : Store
new_store = record { records = []; creations = []; submissions = [] }

pub data Answer : Type 0 where
  returned : Review → Answer
  raised : Error → Answer

-- A call: what it answers and the store that it leaves.
abbrev pub Act : Type 0
Act = Store → Answer × Store

abbrev pub give : Review → Act
give r s = (returned r, s)

abbrev pub fail : Error → Act
fail error s = (raised error, s)

-- A condition whose failure raises, and then the rest.
abbrev pub ensure : Bool → Error → Act → Act
ensure b error rest = if b then rest else fail error

-- `_nonempty`
unfoldable pub nonempty : String → Bool
nonempty s = elim (strip (codes s)) [ [] ↦ false | _ ∷ _ ↦ true ]

-- `SyntheticCandidateSnapshot(...)` accepts the id.
unfoldable pub is_snapshot_id : String → Bool
unfolding nonempty
is_snapshot_id s = nonempty s && begins (codes "synthetic-") (codes s)

-- Python's `==` on the values.
abbrev pub same_option : Option String → Option String → Bool
same_option none none = true
same_option (some s) (some t) = s == t
same_option _ _ = false

unfoldable pub same_matches : List SyntheticMatch → List SyntheticMatch → Bool
same_matches [] [] = true
same_matches (m ∷ ms) (n ∷ ns) =
    same_option m.distance_m n.distance_m && same_option m.score n.score && same_matches ms ns
same_matches _ _ = false

abbrev pub same_snapshot : Snapshot → Snapshot → Bool
same_snapshot a b = a.snapshot_id == b.snapshot_id && same_matches a.matches b.matches

abbrev pub same_creation : Creation → Creation → Bool
same_creation a b =
    same_snapshot a.snapshot b.snapshot
    && a.agent == b.agent
    && a.created_at == b.created_at
    && a.expires_at == b.expires_at
    && a.timeout_seconds == b.timeout_seconds

abbrev pub same_reviewer : FakeReviewer → FakeReviewer → Bool
same_reviewer human_a human_a = true
same_reviewer human_b human_b = true
same_reviewer synthetic_agent synthetic_agent = true
same_reviewer outsider outsider = true
same_reviewer _ _ = false

abbrev pub same_submission : Submission → Submission → Bool
same_submission a b =
    a.review_id == b.review_id
    && same_snapshot a.snapshot b.snapshot
    && same_reviewer a.reviewer b.reviewer
    && a.decision == b.decision
    && same_option a.advisory_preference b.advisory_preference

-- `_replay_creation`
abbrev pub replay_creation : Creation → Creation × Review → Act
replay_creation creation (previous, result) =
    ensure (same_creation previous creation) conflict (give result)

-- A key that the dict has, or else the rest.
abbrev pub if_known : {V : Type 0} → Option V → (V → Act) → Act → Act
if_known none known rest = rest
if_known (some v) known rest = known v

-- `create` up to the evaluation: an answer, or `none` where the evaluation is awaited.
unfoldable pub start_create : String → Creation → Store → Option Answer
start_create review_id c s =
    if not (nonempty review_id) || leb c.expires_at c.created_at
    then some (raised value_error)
    else elim (lookup review_id s.creations) [
      | none ↦ none
      | some known ↦ some (replay_creation c known s).0
    ]

abbrev pub new_review : String → Creation → RecommendationResult → Review
new_review review_id c advisory = record {
  review_id = review_id;
  snapshot = c.snapshot;
  recommendation = advisory;
  created_at = c.created_at;
  expires_at = c.expires_at;
  updated_at = c.created_at;
  status = pending;
  reviewer = none;
  advisory_preference = none;
  idempotency_key = none;
}

abbrev pub store_review : String → Creation → Review → Store → Store
store_review review_id c r s = record s {
  records = insert review_id r s.records;
  creations = insert review_id (c, r) s.creations;
}

-- `create` after the evaluation, which gave the advisory result.
unfoldable pub finish_create : String → Creation → RecommendationResult → Act
finish_create review_id c advisory s =
    if_known (lookup review_id s.creations) (replay_creation c)
      (λ s. let r = new_review review_id c advisory in (returned r, store_review review_id c r s)) s

abbrev pub is_pending : Status → Bool
is_pending pending = true
is_pending _ = false

abbrev pub is_expired : Status → Bool
is_expired expired = true
is_expired _ = false

-- A record as it is at the time `now`.
abbrev pub aged : ℕ → Review → Review
aged now r =
    if is_pending r.status && leb r.expires_at now
    then record r { status = expired; updated_at = r.expires_at }
    else r

abbrev pub put : String → Review → Store → Store
put review_id r s = record s { records = insert review_id r s.records }

-- `self._records[review_id]`, which raises `KeyError` where there is none.
abbrev pub with_record : Option Review → (Review → Act) → Act
with_record none k = fail key_error
with_record (some r) k = k r

-- The record at the time `now`, written back where it has expired.
abbrev pub refresh : String → ℕ → Review → (Review → Act) → Act
refresh review_id now r k s =
    k (aged now r)
      (if is_pending r.status && leb r.expires_at now then put review_id (aged now r) s else s)

-- `_validate_time`
abbrev pub in_order : ℕ → Review → Bool
in_order now r = leb r.updated_at now

unfoldable pub get : String → ℕ → Act
get review_id now s =
    with_record (lookup review_id s.records)
      (λ r. ensure (in_order now r) value_error (refresh review_id now r give)) s
