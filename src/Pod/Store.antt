-- ===== src/Pod/Store.antt =====
-- The stage of an order, kept by a web API (`PODStore` of api/pod_lifecycle.py).
use new_logistic.Prelude.{
  ℕ, ◌+◌, ◌≡◌, String, concat, Bool, true, false, Option, none, some, ◌||◌, ◌&&◌, ◌==◌, nat_eq,
  string_eq, if◌then◌else◌, arith, Bool-cases, ◌⊎◌, inl, inr, refl, ap, sym, subst, ◌∙◌,
}
use new_logistic.Prelude.Json.{Json, arr, cons, obj, str, get_or}
use new_logistic.Pod.Lifecycle.{
  PodStatus, uploaded, value, of_value, rank, same, can_transition, can_transition-rank,
}

-- What a request to the API gives: an exception with its name, or a response with its body, `none`
-- where it is no JSON.
pub data Reply : Type 0 where
  raised : String → Reply
  response : ℕ → Option Json → Reply

-- The stage that the first row of a body names.
abbrev pub stage_of : Json → Option PodStatus
stage_of (arr (cons (obj row) rest)) = elim (get_or "pod_status" (str "POD_UPLOADED") row) [
  | str raw ↦ elim (of_value raw) [ none ↦ some uploaded | some s ↦ some s ]
  | _ ↦ some uploaded
]
stage_of _ = none

-- `get_order_status`, given the reply to its request
unfoldable pub get_order_status : Reply → Option PodStatus
get_order_status (raised name) = none
get_order_status (response code none) = none
get_order_status (response code (some body)) = if code == 200 then stage_of body else none

-- The answer of `advance_status`
pub record Advance : Type 0 where
  pub success : Bool
  pub message : String

abbrev pub answer : Bool → String → Advance
answer success message = record { success = success; message = message }

-- The text of a number
module _ (show : ℕ → String) where
  -- What the reply to the update says. The branch for a response 200 whose body has no row cannot be
  -- reached, since 200 is accepted before.
  unfoldable pub advanced : PodStatus → Reply → Advance
  advanced target (raised name) = answer false (concat "DB error: " name)
  advanced target (response code body) =
      if code == 200 || code == 204
      then answer true (concat "Advanced to " (value target))
      else answer false (concat "DB update failed: " (show code))

  -- `advance_status`, where `patch` is the update of the rows with this id and this stage.
  unfoldable pub advance_status :
      {World : Type 0}
      → (String → PodStatus → PodStatus → World → Reply × World)
      → String
      → PodStatus
      → PodStatus
      → World
      → Advance × World
  advance_status patch order current target w =
      if can_transition current target
      then (let (reply, w') = patch order current target w in (advanced target reply, w'))
      else (
        answer false
            (concat "Invalid transition: " (concat (value current) (concat " → " (value target)))),
        w,
      )

-- The order has this stage.
abbrev pub is_at :
    {World : Type 0} → (String → World → Option PodStatus) → String → PodStatus → World → Bool
is_at stage order current w = elim (stage order w) [ none ↦ false | some s ↦ same s current ]

-- A response 200 or 204.
abbrev pub is_done : Reply → Bool
is_done (raised name) = false
is_done (response code body) = code == 200 || code == 204

-- The documented behaviour of the API with `Prefer: return=minimal`. An update takes effect or not, and
-- the reply to it may be lost either way. One that takes effect sets the stage of the row that meets
-- the filter, if there is one; without effect nothing changes, and the reply is no success.
pub record IsMinimal {World : Type 0} (stage : String → World → Option PodStatus)
    (patch : String → PodStatus → PodStatus → World → Reply × World) : Type 0 where
  pub takes_effect : String → PodStatus → PodStatus → World → Bool
  pub hits :
      (order : String) (current target : PodStatus) (w : World)
      → takes_effect order current target w ≡ true
      → is_at stage order current w ≡ true
      → stage order (patch order current target w).1 ≡ some target
  pub misses :
      (order : String) (current target : PodStatus) (w : World)
      → is_at stage order current w ≡ false
      → (patch order current target w).1 ≡ w
  pub fails :
      (order : String) (current target : PodStatus) (w : World)
      → takes_effect order current target w ≡ false
      → (is_done (patch order current target w).0 ≡ false) × ((patch order current target w).1 ≡ w)

module _ {World : Type 0} (show : ℕ → String) (stage : String → World → Option PodStatus)
    (patch : String → PodStatus → PodStatus → World → Reply × World) where
  abbrev pub after : String → PodStatus → PodStatus → World → Advance × World
  after order current target w = advance_status show patch order current target w

  -- Success is reported for these stages and this reply.
  abbrev pub reports : PodStatus → PodStatus → Reply → Bool
  reports current target reply = (rank target == rank current + 1) && is_done reply

  reports-success :
      (order : String) (current target : PodStatus) (w : World)
      → (after order current target w).0.success
        ≡ reports current target (patch order current target w).0
  unfolding advance_status advanced
  reports-success order current target w = ground (arith, can_transition-rank current target)

  -- The world after `advance_status`: that of the update, or the old one where none is asked for.
  after-patch :
      (order : String) (current target : PodStatus) (w : World)
      → (after order current target w).1
        ≡ (if rank target == rank current + 1 then (patch order current target w).1 else w)
  unfolding advance_status
  after-patch order current target w = ground (arith, can_transition-rank current target)

  -- Nothing changed, or the stage went from the current one to the target, which is the next.
  abbrev pub IsStep : String → PodStatus → PodStatus → World → World → Type 0
  IsStep order current target w w' =
      (w' ≡ w)
      ⊎ ((is_at stage order current w ≡ true)
          × (stage order w' ≡ some target)
          × (rank target ≡ rank current + 1))

  patch-IsStep :
      (order : String) (current target : PodStatus) (w : World)
      → IsMinimal stage patch
      → IsStep order current target w
          (if rank target == rank current + 1 then (patch order current target w).1 else w)
  patch-IsStep order current target w api = elim (Bool-cases (rank target == rank current + 1)) [
    | inr skipped ↦ inl (rw (skipped) refl)
    | inl follows ↦ elim (Bool-cases (is_at stage order current w)) [
      | inr other ↦ inl (rw (follows) (api.misses order current target w other))
      | inl at ↦ elim (Bool-cases (api.takes_effect order current target w)) [
        | inr lost ↦ inl (rw (follows) (api.fails order current target w lost).1)
        | inl effect ↦
            inr (
              at,
              rw (follows) (api.hits order current target w effect at),
              ground (arith, follows),
            )
      ]
    ]
  ]

  -- The stage that a success stands for.
  patch-stage :
      (order : String) (current target : PodStatus) (w : World)
      → IsMinimal stage patch
      → is_done (patch order current target w).0 ≡ true
      → stage order (patch order current target w).1
        ≡ (if is_at stage order current w then some target else stage order w)
  patch-stage order current target w api done = elim (Bool-cases (is_at stage order current w)) [
    | inr other ↦ rw (other) (ap (stage order) (api.misses order current target w other))
    | inl at ↦ elim (Bool-cases (api.takes_effect order current target w)) [
      | inr lost ↦ absurd (ground (arith, done, (api.fails order current target w lost).0))
      | inl effect ↦ rw (at) (api.hits order current target w effect at)
    ]
  ]

  success-stage :
      (order : String) (current target : PodStatus) (w : World)
      → IsMinimal stage patch
      → ((after order current target w).0.success ≡ false)
        ⊎ (stage order (after order current target w).1
            ≡ (if is_at stage order current w then some target else stage order w))
  success-stage order current target w api =
      elim (Bool-cases (reports current target (patch order current target w).0)) [
        | inr silent ↦ inl (reports-success order current target w ∙ silent)
        | inl told ↦
            let follows : (rank target == rank current + 1) ≡ true = ground (arith, told) in
            let done : is_done (patch order current target w).0 ≡ true = ground (arith, told) in
            let moves : (after order current target w).1 ≡ (patch order current target w).1 =
              rw (after-patch order current target w, follows) refl in
            inr (ap (stage order) moves ∙ patch-stage order current target w api done)
      ]

  -- An update of the stage against an API that documents what its updates do, and may lose its replies.
  -- Success is reported exactly if the target is the stage after the current one and the reply is 200
  -- or 204. Where it is reported, the order's stage is the target if it was the current one, and else
  -- is what it was. Whatever is reported, either nothing changed, or the stage went from the current
  -- one to the target, which is the next.
  pub advance_status_reports :
      (order : String) (current target : PodStatus) (w : World)
      → IsMinimal stage patch
      → let (advance, w') = after order current target w in
        (advance.success
          ≡ (rank target == rank current + 1) && is_done (patch order current target w).0)
        × ((advance.success ≡ false)
            ⊎ (stage order w'
                ≡ (if is_at stage order current w then some target else stage order w)))
        × IsStep order current target w w'
  advance_status_reports order current target w api = (
    reports-success order current target w,
    success-stage order current target w api,
    subst (λ w'. IsStep order current target w w') (sym (after-patch order current target w))
        (patch-IsStep order current target w api),
  )
