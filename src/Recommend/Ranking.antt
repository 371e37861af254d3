-- ===== src/Recommend/Ranking.antt =====
-- workers/src/zippy_workers/recommendations.py: an agent's ranking of the shortlist, or the shortlist as it
-- was. The task that calls the agent is what it ends with.
pub mod Bag
use new_logistic.Prelude.{
  ℕ, suc, String, concat, Bool, true, false, not, Option, none, some, List, [], ◌∷◌, map, ◌&&◌,
  ◌||◌, ◌==◌, nat_eq, string_eq, if◌then◌else◌, length, elem,
}
use new_logistic.Prelude.Json.{Json, Fields, null, bool, int, minus, float, str, arr, obj, get}
use new_logistic.Recommend.{RecommendationResult, Source, agent, deterministic}

pub record RecommendationCandidate : Type 0 where
  pub candidate_id : String
  pub distance_m : Option String
  pub score : Option String

-- How the call of the agent ends: not in time, cancelled, with an exception, or with what it returns.
pub data Ended : Type 0 where
  late : Ended
  cancelled : Ended
  timeout_error : Ended
  os_error : Ended
  other_error : Ended
  output : Json → Ended

abbrev pub Agent : Type 0
Agent = List RecommendationCandidate → Ended

-- Python's floats as texts: `of_number` is `float(...)` of an integer, which may overflow, `is_finite` is
-- `math.isfinite`, and `is_positive` is a test that the value is greater than 0. `show` is `str` of a
-- position, and `validate` gives the `candidate_ids` of an output that pydantic accepts.
pub record Python : Type 0 where
  pub of_number : Json → Option String
  pub is_finite : String → Bool
  pub is_positive : String → Bool
  pub show : ℕ → String
  pub validate : Json → Option (List String)

-- Each text of the first list is in the second.
abbrev pub includes : List String → List String → Bool
includes [] ys = true
includes (x ∷ xs) ys = elem x ys && includes xs ys

abbrev pub fall_back : List String → String → RecommendationResult
fall_back ids reason = record { candidate_ids = ids; source = deterministic; reason_code = reason }

-- A ranking that has the ids of the shortlist, and as many.
abbrev pub ranked : List String → List String → RecommendationResult
ranked fallback ids =
    if not (length ids == length fallback) || not (includes ids fallback && includes fallback ids)
    then fall_back fallback "MALFORMED_OUTPUT"
    else record { candidate_ids = ids; source = agent; reason_code = "RECOMMENDED" }

abbrev pub validated : List String → Option (List String) → RecommendationResult
validated fallback none = fall_back fallback "MALFORMED_OUTPUT"
validated fallback (some ids) = ranked fallback ids

abbrev pub ids_of : List RecommendationCandidate → List String
ids_of = map (λ c. c.candidate_id)

module _ (python : Python) where
  abbrev finite : Option String → Option String
  finite none = none
  finite (some t) = if python.is_finite t then some t else none

  unfoldable pub finite_feature : Json → Option String
  finite_feature (int n) = finite (python.of_number (int n))
  finite_feature (minus n) = finite (python.of_number (minus n))
  finite_feature (float t) = finite (some t)
  finite_feature _ = none

  abbrev pub candidate_id : ℕ → String
  candidate_id index = concat "candidate-" (python.show index)

  -- The candidates of a request, from a position on.
  unfoldable pub request_from : ℕ → List Fields → List RecommendationCandidate
  unfolding finite_feature
  request_from index [] = []
  request_from index (c ∷ cs) =
      record {
        candidate_id = candidate_id index;
        distance_m = finite_feature (get "distance_m" c);
        score = finite_feature (get "score" c);
      }
      ∷ request_from (suc index) cs

  abbrev pub judged : List String → Ended → RecommendationResult
  judged fallback late = fall_back fallback "AGENT_TIMEOUT"
  judged fallback cancelled = fall_back fallback "AGENT_FAILURE"
  judged fallback timeout_error = fall_back fallback "AGENT_TIMEOUT"
  judged fallback os_error = fall_back fallback "AGENT_UNAVAILABLE"
  judged fallback other_error = fall_back fallback "AGENT_FAILURE"
  judged fallback (output v) = validated fallback (python.validate v)

  -- The agent is asked about a shortlist that is not empty.
  abbrev pub consulted :
      List RecommendationCandidate → List String → Option Agent → RecommendationResult
  consulted request [] rank = fall_back [] "NO_CANDIDATES"
  consulted request (id ∷ ids) none = fall_back (id ∷ ids) "AGENT_UNAVAILABLE"
  consulted request (id ∷ ids) (some rank) = judged (id ∷ ids) (rank request)

  -- `none` is the `ValueError` of a limit of time that is not finite and positive.
  unfoldable pub recommend_drivers :
      List Fields → Option Agent → String → Option RecommendationResult
  unfolding request_from
  recommend_drivers candidates rank timeout_seconds =
      if not (python.is_finite timeout_seconds) || not (python.is_positive timeout_seconds)
      then none
      else (let request = request_from 0 candidates in
          some (consulted request (ids_of request) rank))
