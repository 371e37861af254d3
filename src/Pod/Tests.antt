-- ===== src/Pod/Tests.antt =====
-- The stages of a proof of delivery (api/pod_lifecycle.py) in a table of one order.
use new_logistic.Prelude.{
  ℕ, ◌+◌, ◌≡◌, refl, String, Option, none, some, ◌==◌, ◌&&◌, nat_eq, string_eq, not, true, false,
  ◌⊎◌, arith, if◌then◌else◌,
}
use new_logistic.Prelude.Json.{arr, cons, nil, obj, field, end, str, get_or}
use new_logistic.Pod.Lifecycle.{
  PodStatus, uploaded, verification_pending, verified, rank, same, of_value, next_status,
  can_transition,
}
use new_logistic.Pod.Store.{
  Reply, raised, response, get_order_status, is_at, is_done, IsMinimal, after, advance_status,
  advanced, IsStep, advance_status_reports,
}

-- The one order's stage.
abbrev stage : String → PodStatus → Option PodStatus
stage order w = some w

-- No update of the order "away" takes effect, and the call raises.
abbrev patch : String → PodStatus → PodStatus → PodStatus → Reply × PodStatus
patch order current target w =
    if order == "away"
    then (raised "ReadTimeout", w)
    else (response 204 none, if same w current then target else w)

patch-IsMinimal : IsMinimal stage patch
patch-IsMinimal = record {
  takes_effect = λ order current target w. not (order == "away");
  hits = λ order current target w effect h. ground (arith, effect, h);
  misses = λ order current target w h. ground (arith, h);
  fails = λ order current target w lost. ground (arith, lost);
}

abbrev show : ℕ → String
show n = "code"

-- The order is verified already, and the caller believes that it is uploaded: success is reported.
advance_status_reports_example :
    let (advance, w') = after show stage patch "o" uploaded verification_pending verified in
    (advance.success
      ≡ (rank verification_pending == rank uploaded + 1)
        && is_done (patch "o" uploaded verification_pending verified).0)
    × ((advance.success ≡ false)
        ⊎ (stage "o" w' ≡ (
            if is_at stage "o" uploaded verified
            then some verification_pending
            else stage "o" verified)))
    × IsStep show stage patch "o" uploaded verification_pending verified w'
advance_status_reports_example =
    advance_status_reports show stage patch "o" uploaded verification_pending verified
      patch-IsMinimal

stale_success :
    let (advance, w') = after show stage patch "o" uploaded verification_pending verified in
    (advance.success ≡ true) × (w' ≡ verified)
unfolding advance_status advanced can_transition
stale_success = (refl, refl)

away_failure :
    (after show stage patch "away" uploaded verification_pending uploaded).0.success ≡ false
unfolding advance_status advanced can_transition
away_failure = refl

read_stage :
    get_order_status
      (response 200 (some (arr (cons (obj (field "pod_status" (str "POD_VERIFIED") end)) nil))))
    ≡ some verified
unfolding get_order_status of_value get_or
read_stage = refl

stage_after : next_status uploaded ≡ some verification_pending
unfolding next_status
stage_after = refl
