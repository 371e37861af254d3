-- ===== src/Recommend/Tests.antt =====
-- The advisory recommendations (workers/src/zippy_workers) with two candidates, one review and its decisions.
use new_logistic.Prelude.{
  ℕ, zero, suc, String, true, ◌≡◌, ◌⊎◌, refl, none, some, List, [], ◌∷◌, map, string_eq, arith,
}
use new_logistic.Prelude.Text.{strip}
use new_logistic.Prelude.Dict.{lookup}
use new_logistic.Prelude.Json.{Fields, end, field, float, null}
use new_logistic.Recommend.{SyntheticMatch, RecommendationResult, agent}
use new_logistic.Recommend.Ranking.{Agent, output, Python, recommend_drivers}
use new_logistic.Recommend.Ranking.Bag.{
  occurrences, distinct, shortlist, recommend_drivers-IsRanking,
}
use new_logistic.Recommend.Shadow.{
  FakeShadowAgent, Loaded, no_json, response, ShadowComparison, compared, candidate_of,
  evaluate_shadow,
}
use new_logistic.Recommend.Shadow.Total.{evaluate_shadow_total}
use new_logistic.Recommend.Reviews.{
  human_a, Snapshot, Review, Creation, Store, new_store, returned, finish_create, new_review,
  nonempty, same_matches, get as get_review,
}
use new_logistic.Recommend.Decisions.{
  Request, review, Step, creating, reading, reviewing, run_step, run, decided,
}
use new_logistic.Recommend.Decisions.Effects.{is_sound}
use new_logistic.Recommend.Decisions.Runs.{
  Moves, status_at, run_step-Moves, run-is_sound, run-run_final,
}
use new_logistic.Recommend.Decisions.Again.{at, review-again}

-- A position in strokes, which tell positions apart.
strokes : ℕ → String
strokes zero = String.[]
strokes (suc n) = String.◌∷◌ "|" (strokes n)

strokes_injective : (i j : ℕ) → strokes i ≡ strokes j → i ≡ j
unfolding strokes
strokes_injective zero zero e = refl
strokes_injective zero (suc j) e = absurd (cc)
strokes_injective (suc i) zero e = absurd (cc)
strokes_injective (suc i) (suc j) e = let rest = strokes_injective i j cc in omega (arith, rest)

-- An agent's output is validated as the two candidates in the other order.
abbrev python : Python
python = record {
  of_number = λ v. none;
  is_finite = λ t. true;
  is_positive = λ t. true;
  show = strokes;
  validate = λ v. some ("candidate-|" ∷ "candidate-" ∷ []);
}

abbrev candidates : List Fields
candidates = field "score" (float "0.5") end ∷ end ∷ []

abbrev swaps : Agent
swaps request = output null

abbrev swapped : RecommendationResult
swapped = record {
  candidate_ids = "candidate-|" ∷ "candidate-" ∷ [];
  source = agent;
  reason_code = "RECOMMENDED";
}

swapped_result : recommend_drivers python candidates (some swaps) "1.0" ≡ some swapped
unfolding recommend_drivers strokes
swapped_result = refl

recommend_drivers-IsRanking_example :
    (distinct (shortlist python candidates) ≡ true)
    × ((t : String)
        → occurrences t swapped.candidate_ids ≡ occurrences t (shortlist python candidates))
    × ((swapped.source ≡ agent) ⊎ (swapped.candidate_ids ≡ shortlist python candidates))
recommend_drivers-IsRanking_example =
    recommend_drivers-IsRanking python strokes_injective candidates (some swaps) "1.0" swapped
      swapped_result

abbrev loads : String → Loaded
loads t = no_json

abbrev matches : List SyntheticMatch
matches =
    record { distance_m = some "3.0"; score = none }
    ∷ record { distance_m = none; score = none }
    ∷ []

abbrev fake : FakeShadowAgent
fake = record { response_json = "no JSON"; outcome = response }

evaluate_shadow_total_example :
    (c : ShadowComparison) × (evaluate_shadow python loads matches
        (some fake)
        "order_management"
        "recommend_drivers"
        "recommend_drivers"
        "1.0"
      ≡ compared c)
    × (c.baseline_ids ≡ shortlist python (map candidate_of matches))
    × ((t : String) → occurrences t c.advisory.candidate_ids ≡ occurrences t c.baseline_ids)
evaluate_shadow_total_example =
    evaluate_shadow_total python strokes_injective "1.0" refl refl loads matches (some fake)

abbrev snapshot : Snapshot
snapshot = record { snapshot_id = "synthetic-1"; matches = matches }

abbrev inputs : Creation
inputs = record {
  snapshot = snapshot;
  agent = "fake";
  created_at = 10;
  expires_at = 20;
  timeout_seconds = "1.0";
}

-- A review is created, and a person accepts a candidate of it.
abbrev acceptance : Request
acceptance = record {
  review_id = "r";
  current_snapshot = snapshot;
  reviewer = human_a;
  decision = "accepted";
  advisory_preference = some "candidate-";
  idempotency_key = "k";
  now = 15;
}

abbrev calls : List Step
calls = creating "r" inputs swapped ∷ reviewing acceptance ∷ []

abbrev accepted_review : Review
accepted_review = decided acceptance (new_review "r" inputs swapped)

accepted_found : lookup "r" (run calls new_store).records ≡ some accepted_review
unfolding run new_store finish_create review get_review nonempty strip same_matches
accepted_found = refl

run_step-Moves_example : Moves (status_at "r" (run (creating "r" inputs swapped ∷ []) new_store)) (
    status_at "r"
      (run_step (reviewing acceptance) (run (creating "r" inputs swapped ∷ []) new_store)))
run_step-Moves_example =
    run_step-Moves (creating "r" inputs swapped ∷ []) (reviewing acceptance) "r"

run-is_sound_example : is_sound accepted_review ≡ true
run-is_sound_example = run-is_sound calls "r" accepted_review accepted_found

run-run_final_example :
    lookup "r" (run (reading "r" 99 ∷ []) (run calls new_store)).records ≡ some accepted_review
run-run_final_example =
    run-run_final calls (reading "r" 99 ∷ []) "r" accepted_review accepted_found refl

abbrev created : Store
created = run (creating "r" inputs swapped ∷ []) new_store

abbrev decided_store : Store
decided_store = run calls new_store

acceptance_returned : review acceptance created ≡ (returned accepted_review, decided_store)
unfolding run new_store finish_create review get_review nonempty strip same_matches
acceptance_returned = refl

review-again_example :
    review (at 19 acceptance) decided_store ≡ (returned accepted_review, decided_store)
review-again_example =
    review-again acceptance created decided_store accepted_review 19 (omega arith)
      acceptance_returned
