-- ===== src/Recommend/Ranking/Bag.antt =====
-- workers/src/zippy_workers/recommendations.py: a recommendation has each candidate of the shortlist once.
use text.Mathlib.TextLemmas.{append_cancel_left}
use new_logistic.Prelude.{
  ℕ, suc, ◌+◌, ◌≤◌, String, Bool, true, false, not, ◌≡◌, refl, sym, subst, ap, ◌∙◌, Option, none,
  some, List, [], ◌∷◌, ◌&&◌, ◌||◌, ◌==◌, nat_eq, string_eq, if◌then◌else◌, length, elem, arith,
  eq_iff, ◌⊎◌, Bool-cases, inl, inr,
}
use new_logistic.Prelude.Json.{Fields}
use new_logistic.Recommend.{RecommendationResult, agent}
use new_logistic.Recommend.Ranking.{
  RecommendationCandidate, Ended, late, cancelled, timeout_error, os_error, other_error, output,
  Agent, Python, candidate_id, request_from, includes, fall_back, ranked, validated, judged,
  consulted, ids_of, recommend_drivers,
}

-- How often a text occurs.
abbrev pub occurrences : String → List String → ℕ
occurrences t [] = 0
occurrences t (x ∷ xs) = (if t == x then 1 else 0) + occurrences t xs

-- No text occurs twice.
abbrev pub distinct : List String → Bool
distinct [] = true
distinct (x ∷ xs) = not (elem x xs) && distinct xs

-- The list without the first occurrence of a text.
remove : String → List String → List String
remove t [] = []
remove t (x ∷ xs) = if t == x then xs else x ∷ remove t xs

length-remove :
    (t : String) (xs : List String) → elem t xs ≡ true → suc (length (remove t xs)) ≡ length xs
unfolding remove
length-remove t [] h = absurd (cc)
length-remove t (x ∷ xs) h = elim (Bool-cases (t == x)) [
  | inl same ↦ rw (same) refl
  | inr other ↦ rw (other) (ap suc (length-remove t xs (ground (arith, h, other))))
]

occurrences-remove :
    (t u : String) (xs : List String)
    → elem t xs ≡ true
    → occurrences u xs ≡ (if u == t then 1 else 0) + occurrences u (remove t xs)
unfolding remove
occurrences-remove t u [] h = absurd (cc)
occurrences-remove t u (x ∷ xs) h = elim (Bool-cases (t == x)) [
  | inl same ↦
      rw (same) (ap (λ y. (if u == y then 1 else 0) + occurrences u xs) (sym ((eq_iff t x).0 same)))
  | inr other ↦
      rw (other)
        (let rest = occurrences-remove t u xs (ground (arith, h, other)) in omega (arith, rest))
]

elem-remove :
    (t u : String) (xs : List String)
    → u == t ≡ false
    → elem u xs ≡ true
    → elem u (remove t xs) ≡ true
unfolding remove
elem-remove t u [] differ h = absurd (cc)
elem-remove t u (x ∷ xs) differ h = elim (Bool-cases (t == x)) [
  | inl same ↦
      rw (same)
        (let is = (eq_iff t x).0 same in ground (arith, h, subst (λ y. u == y ≡ false) is differ))
  | inr other ↦ rw (other) (
      let rest = elem-remove t u xs differ in
      elim (Bool-cases (u == x)) [
        | inl here ↦ rw (here) refl
        | inr there ↦ rw (there) (rest (ground (arith, h, there)))
      ])
]

includes-remove :
    (y : String) (ys xs : List String)
    → elem y ys ≡ false
    → includes ys xs ≡ true
    → includes ys (remove y xs) ≡ true
includes-remove y [] xs absent h = refl
includes-remove y (z ∷ ys) xs absent h =
    let differ : z == y ≡ false = ground (arith, absent, eq_iff y z, eq_iff z y) in
    let here = elem-remove y z xs differ (ground (arith, h)) in
    let rest = includes-remove y ys xs (ground (arith, absent)) (ground (arith, h)) in
    ground (arith, here, rest)

-- Distinct texts of a list of the same length are all of it.
same_bag :
    (ys xs : List String)
    → distinct ys ≡ true
    → includes ys xs ≡ true
    → length xs ≡ length ys
    → (t : String) → occurrences t xs ≡ occurrences t ys
same_bag [] [] d i l t = refl
same_bag [] (x ∷ xs) d i l t = absurd (omega (arith, l))
same_bag (y ∷ ys) xs d i l t =
    let here : elem y xs ≡ true = ground (arith, i) in
    let shorter = length-remove y xs here in
    let rest =
      same_bag ys (remove y xs) (ground (arith, d))
        (includes-remove y ys xs (ground (arith, d)) (ground (arith, i)))
        (omega (arith, l, shorter)) t in
    occurrences-remove y t xs here ∙ ap (λ n. (if t == y then 1 else 0) + n) rest

-- `str` of different positions differs.
abbrev pub IsPrinter : Python → Type 0
IsPrinter python = (i j : ℕ) → python.show i ≡ python.show j → i ≡ j

-- The ids of the shortlist, in its order.
abbrev pub shortlist : Python → List Fields → List String
shortlist python candidates = ids_of (request_from python 0 candidates)

module _ (python : Python) (prints : IsPrinter python) where
  candidate_id_injective : (i j : ℕ) → candidate_id python i ≡ candidate_id python j → i ≡ j
  candidate_id_injective i j e =
      prints i j (append_cancel_left "candidate-" (python.show i) (python.show j) e)

  -- Later positions have other ids.
  absent_before :
      (i j : ℕ) (cs : List Fields)
      → suc i ≤ j
      → elem (candidate_id python i) (ids_of (request_from python j cs)) ≡ false
  unfolding request_from
  absent_before i j [] h = refl
  absent_before i j (c ∷ cs) h =
      let rest = absent_before i (suc j) cs (omega (arith, h)) in
      let injective = candidate_id_injective i j in
      let same = (eq_iff (candidate_id python i) (candidate_id python j)).0 in
      elim (Bool-cases (candidate_id python i == candidate_id python j)) [
        | inl equal ↦ absurd (omega (arith, injective (same equal), h))
        | inr differ ↦ ground (arith, differ, rest)
      ]

  ids_of-distinct : (j : ℕ) (cs : List Fields) → distinct (ids_of (request_from python j cs)) ≡ true
  unfolding request_from
  ids_of-distinct j [] = refl
  ids_of-distinct j (c ∷ cs) =
      let first = absent_before j (suc j) cs (omega arith) in
      let rest = ids_of-distinct (suc j) cs in ground (arith, first, rest)

  -- A result is the shortlist, or an agent's ranking of the same ids.
  abbrev IsRanking : List String → RecommendationResult → Type 0
  IsRanking ids r =
      ((t : String) → occurrences t r.candidate_ids ≡ occurrences t ids)
      × ((r.source ≡ agent) ⊎ (r.candidate_ids ≡ ids))

  fall_back-IsRanking : (ids : List String) (reason : String) → IsRanking ids (fall_back ids reason)
  fall_back-IsRanking ids reason = (λ t. refl, inr refl)

  ranked-IsRanking :
      (ids ranking : List String) → distinct ids ≡ true → IsRanking ids (ranked ids ranking)
  ranked-IsRanking ids ranking d =
      elim (Bool-cases (
        not (length ranking == length ids) || not (includes ranking ids && includes ids ranking))) [
          | inl malformed ↦ rw (malformed) (fall_back-IsRanking ids "MALFORMED_OUTPUT")
          | inr good ↦
              rw (good)
                (same_bag ids ranking d (ground (arith, good)) (ground (arith, good)), inl refl)
        ]

  validated-IsRanking :
      (ids : List String) (o : Option (List String))
      → distinct ids ≡ true
      → IsRanking ids (validated ids o)
  validated-IsRanking ids none d = fall_back-IsRanking ids "MALFORMED_OUTPUT"
  validated-IsRanking ids (some ranking) d = ranked-IsRanking ids ranking d

  judged-IsRanking :
      (ids : List String) (ended : Ended)
      → distinct ids ≡ true
      → IsRanking ids (judged python ids ended)
  judged-IsRanking ids late d = fall_back-IsRanking ids "AGENT_TIMEOUT"
  judged-IsRanking ids cancelled d = fall_back-IsRanking ids "AGENT_FAILURE"
  judged-IsRanking ids timeout_error d = fall_back-IsRanking ids "AGENT_TIMEOUT"
  judged-IsRanking ids os_error d = fall_back-IsRanking ids "AGENT_UNAVAILABLE"
  judged-IsRanking ids other_error d = fall_back-IsRanking ids "AGENT_FAILURE"
  judged-IsRanking ids (output v) d = validated-IsRanking ids (python.validate v) d

  consulted-IsRanking :
      (request : List RecommendationCandidate) (ids : List String) (rank : Option Agent)
      → distinct ids ≡ true
      → IsRanking ids (consulted python request ids rank)
  consulted-IsRanking request [] rank d = fall_back-IsRanking [] "NO_CANDIDATES"
  consulted-IsRanking request (id ∷ ids) none d = fall_back-IsRanking (id ∷ ids) "AGENT_UNAVAILABLE"
  consulted-IsRanking request (id ∷ ids) (some rank) d =
      judged-IsRanking (id ∷ ids) (rank request) d

  -- Whatever the agent does, a recommendation has the candidates of the shortlist, each of them once, and is in
  -- the order of the shortlist unless it is the agent's.
  pub recommend_drivers-IsRanking :
      (candidates : List Fields) (rank : Option Agent) (timeout_seconds : String)
      (r : RecommendationResult)
      → recommend_drivers python candidates rank timeout_seconds ≡ some r
      → (distinct (shortlist python candidates) ≡ true)
        × ((t : String)
            → occurrences t r.candidate_ids ≡ occurrences t (shortlist python candidates))
        × ((r.source ≡ agent) ⊎ (r.candidate_ids ≡ shortlist python candidates))
  unfolding recommend_drivers
  recommend_drivers-IsRanking candidates rank timeout_seconds r h =
      elim (Bool-cases
        (not (python.is_finite timeout_seconds) || not (python.is_positive timeout_seconds))) [
          | inl bad ↦ absurd (ground (arith, h, bad))
          | inr good ↦
              let request = request_from python 0 candidates in
              let is : consulted python request (ids_of request) rank ≡ r =
                ground (arith, h, good) in
              let once = ids_of-distinct 0 candidates in
              let (same, order) =
                subst (IsRanking (ids_of request)) is
                  (consulted-IsRanking request (ids_of request) rank once) in
              (once, same, order)
        ]
