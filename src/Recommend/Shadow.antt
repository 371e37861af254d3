-- ===== src/Recommend/Shadow.antt =====
-- workers/src/zippy_workers/shadow_recommendations.py: an advisory ranking beside the shortlist.
pub mod Total
use new_logistic.Prelude.{
  ℕ, suc, ◌+◌, ◌-◌, String, Bool, true, false, not, Option, none, some, List, [], ◌∷◌, map, ◌&&◌,
  ◌||◌, ◌==◌, nat_eq, string_eq, leb, if◌then◌else◌,
}
use new_logistic.Prelude.Dict.{Dict, lookup, insert}
use new_logistic.Prelude.Json.{Json, Fields, null, float, str, field, end}
use new_logistic.Agent.Capabilities.{has_capability}
use new_logistic.Recommend.{SyntheticMatch, RecommendationResult}
use new_logistic.Recommend.Ranking.{
  Ended, late, os_error, other_error, output, Agent, Python, recommend_drivers,
}

pub data Planned : Type 0 where
  response timeout unavailable failure : Planned

pub record FakeShadowAgent : Type 0 where
  pub response_json : String
  pub outcome : Planned

pub record RankDifference : Type 0 where
  pub candidate_id : String
  pub baseline_rank : ℕ
  pub advisory_rank : ℕ

pub record ShadowComparison : Type 0 where
  pub baseline_ids : List String
  pub advisory : RecommendationResult
  pub differences : List RankDifference
  pub top_choice_agrees : Option Bool
  pub total_rank_displacement : ℕ

-- The comparison, or the exception that is raised.
pub data Evaluated : Type 0 where
  compared : ShadowComparison → Evaluated
  unauthorized : Evaluated
  value_error : Evaluated
  lookup_error : Evaluated

-- What `json.loads` gives: a document, a JSONDecodeError, or another exception, such as that of a text
-- nested too deeply.
pub data Loaded : Type 0 where
  document : Json → Loaded
  no_json : Loaded
  fails : Loaded

-- `FakeShadowAgent.rank`; a wait that never ends is late, and `loads` is `json.loads`.
unfoldable pub rank : (String → Loaded) → FakeShadowAgent → Agent
rank loads a request = elim a.outcome [
  | timeout ↦ late
  | unavailable ↦ os_error
  | failure ↦ other_error
  | response ↦ elim (loads a.response_json) [
    | document v ↦ output v
    | no_json ↦ output (str a.response_json)
    | fails ↦ other_error
  ]
]

abbrev feature : Option String → Json
feature none = null
feature (some t) = float t

abbrev pub candidate_of : SyntheticMatch → Fields
candidate_of m = field "distance_m" (feature m.distance_m) (field "score" (feature m.score) end)

-- The ranks of ids from a rank on: a dict, in which the last rank of an id stands.
unfoldable pub positions : ℕ → List String → Dict ℕ → Dict ℕ
positions n [] d = d
positions n (id ∷ ids) d = positions (suc n) ids (insert id n d)

abbrev pub distance : ℕ → ℕ → ℕ
distance m n = if leb m n then n - m else m - n

-- The difference of an id's ranks, before other differences.
abbrev pub placed :
    String → ℕ → Option ℕ → Option (List RankDifference) → Option (List RankDifference)
placed id n none rest = none
placed id n (some m) none = none
placed id n (some m) (some ds) =
    if m == n
    then some ds
    else some (record { candidate_id = id; baseline_rank = n; advisory_rank = m } ∷ ds)

-- The differences of the ranks of ids from a rank on; `none` is a `LookupError`.
unfoldable pub differences : Dict ℕ → ℕ → List String → Option (List RankDifference)
differences ranks n [] = some []
differences ranks n (id ∷ ids) = placed id n (lookup id ranks) (differences ranks (suc n) ids)

abbrev pub displacement : List RankDifference → ℕ
displacement [] = 0
displacement (d ∷ ds) = distance d.baseline_rank d.advisory_rank + displacement ds

-- Whether the first ids agree, where there are any; `none` is a `LookupError`.
abbrev pub top_agrees : List String → List String → Option (Option Bool)
top_agrees [] ids = some none
top_agrees (id ∷ ids) [] = none
top_agrees (id ∷ ids) (other ∷ others) = some (some (id == other))

abbrev pub comparison :
    List String
    → RecommendationResult
    → Option (List RankDifference)
    → Option (Option Bool)
    → Evaluated
comparison baseline advisory none top = lookup_error
comparison baseline advisory (some ds) none = lookup_error
comparison baseline advisory (some ds) (some top) = compared (record {
  baseline_ids = baseline;
  advisory = advisory;
  differences = ds;
  top_choice_agrees = top;
  total_rank_displacement = displacement ds;
})

abbrev pub compare : Option RecommendationResult → Option RecommendationResult → Evaluated
compare none advisory = value_error
compare (some baseline) none = value_error
compare (some baseline) (some advisory) =
    comparison baseline.candidate_ids advisory
      (differences (positions 1 advisory.candidate_ids []) 1 baseline.candidate_ids)
      (top_agrees baseline.candidate_ids advisory.candidate_ids)

abbrev pub is_granted : String → String → String → Bool
is_granted agent_name action tool =
    agent_name == "order_management" && action == "recommend_drivers" && tool == "recommend_drivers"

abbrev pub rank_of : (String → Loaded) → Option FakeShadowAgent → Option Agent
rank_of loads none = none
rank_of loads (some a) = some (rank loads a)

module _ (python : Python) (loads : String → Loaded) where
  unfoldable pub evaluate_shadow :
      List SyntheticMatch
      → Option FakeShadowAgent
      → (agent_name action tool timeout_seconds : String) → Evaluated
  evaluate_shadow matches a agent_name action tool timeout_seconds =
      if not (is_granted agent_name action tool) || not (has_capability agent_name "read" "drivers")
      then unauthorized
      else (let candidates = map candidate_of matches in
          compare (recommend_drivers python candidates none timeout_seconds)
            (recommend_drivers python candidates (rank_of loads a) timeout_seconds))
