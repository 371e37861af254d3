-- ===== src/Recommend.antt =====
-- The advisory recommendations of drivers (workers/src/zippy_workers/recommendations.py,
-- shadow_recommendations.py and recommendation_reviews.py): what they share.
pub mod Reviews
pub mod Ranking
pub mod Shadow
mod Tests
pub mod Decisions
use new_logistic.Prelude.{String, List, Option}

-- A finite number stands for its value, by a text.
pub record SyntheticMatch : Type 0 where
  pub distance_m : Option String
  pub score : Option String

pub data Source : Type 0 where
  agent deterministic : Source

pub record RecommendationResult : Type 0 where
  pub candidate_ids : List String
  pub source : Source
  pub reason_code : String
