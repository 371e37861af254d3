-- ===== src/Recommend/Shadow/Total.antt =====
-- workers/src/zippy_workers/shadow_recommendations.py: the evaluation looks up no rank in vain.
use new_logistic.Prelude.{
  ℕ, suc, String, Bool, true, false, ◌≡◌, refl, sym, ap, ◌∙◌, Option, none, some, List, [], ◌∷◌,
  map, ◌==◌, nat_eq, string_eq, elem, arith, eq_iff, eq_refl, Bool-cases, inl, inr,
}
use new_logistic.Prelude.Dict.{Dict, lookup, insert, lookup-insert}
use new_logistic.Prelude.Json.{Fields}
use new_logistic.Agent.Capabilities.{has_capability, matrix}
use new_logistic.Recommend.{SyntheticMatch, RecommendationResult}
use new_logistic.Recommend.Ranking.{
  RecommendationCandidate, Agent, Python, recommend_drivers, request_from, consulted,
}
use new_logistic.Recommend.Ranking.Bag.{
  occurrences, IsPrinter, shortlist, recommend_drivers-IsRanking,
}
use new_logistic.Recommend.Shadow.{
  FakeShadowAgent, Loaded, RankDifference, ShadowComparison, compared, candidate_of, positions,
  placed, differences, top_agrees, comparison, compare, rank_of, evaluate_shadow,
}

IsSome : {A : Type 0} → Option A → Type 0
IsSome {A} o = (a : A) × (o ≡ some a)

-- Every id of a list has a rank, and none loses the one that it had.
positions-kept :
    (id : String) (n : ℕ) (ids : List String) (d : Dict ℕ)
    → IsSome (lookup id d)
    → IsSome (lookup id (positions n ids d))
unfolding positions IsSome
positions-kept id n [] d h = h
positions-kept id n (x ∷ xs) d (m, h) =
    positions-kept id (suc n) xs (insert x n d) (kept (x == id) refl)
  where
    kept : (b : Bool) → (x == id) ≡ b → IsSome (lookup id (insert x n d))
    kept true same = (n, lookup-insert x id n d ∙ rw (same) refl)
    kept false other = (m, lookup-insert x id n d ∙ rw (other) h)

positions-elem :
    (id : String) (n : ℕ) (ids : List String) (d : Dict ℕ)
    → elem id ids ≡ true
    → IsSome (lookup id (positions n ids d))
unfolding positions IsSome
positions-elem id n [] d h = absurd (cc)
positions-elem id n (x ∷ xs) d h = elim (Bool-cases (x == id)) [
  | inl same ↦
      positions-kept id (suc n) xs (insert x n d) (n, lookup-insert x id n d ∙ rw (same) refl)
  | inr other ↦
      positions-elem id (suc n) xs (insert x n d)
        (ground (arith, h, other, eq_iff x id, eq_iff id x))
]

placed-IsSome :
    (id : String) (n : ℕ) (o : Option ℕ) (rest : Option (List RankDifference))
    → IsSome o
    → IsSome rest
    → IsSome (placed id n o rest)
unfolding IsSome
placed-IsSome id n none rest (m, h) k = absurd (cc)
placed-IsSome id n (some m) none h (ds, k) = absurd (cc)
placed-IsSome id n (some m) (some ds) h k = elim (Bool-cases (m == n)) [
  | inl same ↦ rw (same) (ds, refl)
  | inr other ↦ rw (other) (_, refl)
]

differences-IsSome :
    (ranks : Dict ℕ) (n : ℕ) (ids : List String)
    → ((id : String) → elem id ids ≡ true → IsSome (lookup id ranks))
    → IsSome (differences ranks n ids)
unfolding differences IsSome
differences-IsSome ranks n [] h = ([], refl)
differences-IsSome ranks n (id ∷ ids) h =
    placed-IsSome id n (lookup id ranks) (differences ranks (suc n) ids)
      (h id (rw (eq_refl id) refl))
      (differences-IsSome ranks (suc n) ids (λ i e. h i (ground (arith, e))))

-- A text occurs exactly if the list has it.
occurrences-elem :
    (t : String) (xs : List String) → elem t xs ≡ true → (k : ℕ) × (occurrences t xs ≡ suc k)
occurrences-elem t [] h = absurd (cc)
occurrences-elem t (x ∷ xs) h = elim (Bool-cases (t == x)) [
  | inl same ↦ (occurrences t xs, rw (same) (omega arith))
  | inr other ↦
      let (k, e) = occurrences-elem t xs (ground (arith, h, other)) in
      (k, rw (other) (omega (arith, e)))
]

elem-occurrences :
    (t : String) (xs : List String) (k : ℕ) → occurrences t xs ≡ suc k → elem t xs ≡ true
elem-occurrences t [] k h = absurd (omega (arith, h))
elem-occurrences t (x ∷ xs) k h = elim (Bool-cases (t == x)) [
  | inl same ↦ rw (same) refl
  | inr other ↦ rw (other) (elem-occurrences t xs k (ground (arith, h, other)))
]

top_agrees-IsSome :
    (baseline advisory : List String)
    → ((id : String) → elem id baseline ≡ true → elem id advisory ≡ true)
    → IsSome (top_agrees baseline advisory)
unfolding IsSome
top_agrees-IsSome [] advisory h = (none, refl)
top_agrees-IsSome (id ∷ ids) [] h =
    absurd (let found = h id (rw (eq_refl id) refl) in ground (arith, found))
top_agrees-IsSome (id ∷ ids) (other ∷ others) h = (some (id == other), refl)

comparison-IsSome :
    (baseline : List String) (advisory : RecommendationResult) (ds : Option (List RankDifference))
    (top : Option (Option Bool))
    → IsSome ds
    → IsSome top
    → (c : ShadowComparison) × (comparison baseline advisory ds top ≡ compared c)
      × (c.baseline_ids ≡ baseline)
      × (c.advisory ≡ advisory)
unfolding IsSome
comparison-IsSome baseline advisory none top h k = absurd (let e = h.1 in ground (arith, e))
comparison-IsSome baseline advisory (some ds) none h k = absurd (let e = k.1 in ground (arith, e))
comparison-IsSome baseline advisory (some ds) (some top) h k = (_, refl, refl, refl)

-- Two results with the same ids are compared.
compare-IsSome :
    (baseline advisory : RecommendationResult)
    → ((t : String) → occurrences t advisory.candidate_ids ≡ occurrences t baseline.candidate_ids)
    → (c : ShadowComparison) × (compare (some baseline) (some advisory) ≡ compared c)
      × (c.baseline_ids ≡ baseline.candidate_ids)
      × (c.advisory ≡ advisory)
compare-IsSome baseline advisory same =
    let found = λ (t : String) (h : elem t baseline.candidate_ids ≡ true).
      let (k, e) = occurrences-elem t baseline.candidate_ids h in
      elem-occurrences t advisory.candidate_ids k (same t ∙ e) in
    comparison-IsSome baseline.candidate_ids advisory _ _
      (differences-IsSome (positions 1 advisory.candidate_ids []) 1 baseline.candidate_ids
        (λ t h. positions-elem t 1 advisory.candidate_ids [] (found t h)))
      (top_agrees-IsSome baseline.candidate_ids advisory.candidate_ids found)

module _ (python : Python) (prints : IsPrinter python) (timeout_seconds : String)
    (is_number : python.is_finite timeout_seconds ≡ true)
    (is_later : python.is_positive timeout_seconds ≡ true) where
  recommend_drivers-some :
      (candidates : List Fields) (rank : Option Agent)
      → recommend_drivers python candidates rank timeout_seconds
        ≡ some
            (consulted python (request_from python 0 candidates) (shortlist python candidates) rank)
  unfolding recommend_drivers
  recommend_drivers-some candidates rank = rw (is_number, is_later) refl

  unranked :
      (request : List RecommendationCandidate) (ids : List String)
      → (consulted python request ids none).candidate_ids ≡ ids
  unranked request [] = refl
  unranked request (id ∷ ids) = refl

  -- Whatever the fake agent answers, an evaluation that is granted and has a limit of time ends in a comparison. Its
  -- baseline is the shortlist, and the advisory ranking has the same candidates.
  pub evaluate_shadow_total :
      (loads : String → Loaded) (matches : List SyntheticMatch) (a : Option FakeShadowAgent)
      → (c : ShadowComparison) × (evaluate_shadow python loads matches a "order_management"
            "recommend_drivers" "recommend_drivers" timeout_seconds
          ≡ compared c)
        × (c.baseline_ids ≡ shortlist python (map candidate_of matches))
        × ((t : String) → occurrences t c.advisory.candidate_ids ≡ occurrences t c.baseline_ids)
  unfolding evaluate_shadow has_capability matrix
  evaluate_shadow_total loads matches a =
      let candidates = map candidate_of matches in
      let ids = shortlist python candidates in
      let request = request_from python 0 candidates in
      let base = consulted python request ids none in
      let advice = consulted python request ids (rank_of loads a) in
      let plain = unranked request ids in
      let ranking =
        recommend_drivers-IsRanking python prints candidates (rank_of loads a) timeout_seconds
          advice (recommend_drivers-some candidates (rank_of loads a)) in
      let same = λ (t : String). ranking.1 t ∙ ap (occurrences t) (sym plain) in
      let (c, ends, baseline, advisory) = compare-IsSome base advice same in
      (
        c,
        rw
            (
              recommend_drivers-some candidates none,
              recommend_drivers-some candidates (rank_of loads a),
            )
            ends,
        baseline ∙ plain,
        λ t.
            ap (λ r. occurrences t r.candidate_ids) advisory
            ∙ same t
            ∙ ap (occurrences t) (sym baseline),
      )
