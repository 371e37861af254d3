-- ===== src/Pod/Lifecycle.antt =====
-- The stages of a proof of delivery and their order (api/pod_lifecycle.py).
use new_logistic.Prelude.{
  ℕ, ◌+◌, ◌≡◌, refl, String, Bool, false, Option, none, some, List, [], ◌∷◌, ◌&&◌, ◌||◌, ◌==◌,
  nat_eq, string_eq, if◌then◌else◌,
}

pub data PodStatus : Type 0 where
  uploaded verification_pending verified delivery_confirmed settlement_eligible : PodStatus

abbrev pub value : PodStatus → String
value uploaded = "POD_UPLOADED"
value verification_pending = "POD_VERIFICATION_PENDING"
value verified = "POD_VERIFIED"
value delivery_confirmed = "DELIVERY_CONFIRMED"
value settlement_eligible = "SETTLEMENT_ELIGIBLE"

-- `PODStatus(raw)` for a text, or `none` for ValueError
unfoldable pub of_value : String → Option PodStatus
of_value raw =
    if raw == "POD_UPLOADED"
    then some uploaded
    else if raw == "POD_VERIFICATION_PENDING"
    then some verification_pending
    else if raw == "POD_VERIFIED"
    then some verified
    else if raw == "DELIVERY_CONFIRMED"
    then some delivery_confirmed
    else if raw == "SETTLEMENT_ELIGIBLE"
    then some settlement_eligible
    else none

-- `POD_TRANSITIONS`
abbrev pub transitions : PodStatus → List PodStatus
transitions uploaded = verification_pending ∷ []
transitions verification_pending = verified ∷ []
transitions verified = delivery_confirmed ∷ []
transitions delivery_confirmed = settlement_eligible ∷ []
transitions settlement_eligible = []

-- The place of a stage in the lifecycle.
abbrev pub rank : PodStatus → ℕ
rank uploaded = 0
rank verification_pending = 1
rank verified = 2
rank delivery_confirmed = 3
rank settlement_eligible = 4

-- `==` of two stages
abbrev pub same : PodStatus → PodStatus → Bool
same a b = rank a == rank b

abbrev pub is_in : PodStatus → List PodStatus → Bool
is_in s [] = false
is_in s (t ∷ ts) = same s t || is_in s ts

unfoldable pub can_transition : PodStatus → PodStatus → Bool
can_transition from_status to_status = is_in to_status (transitions from_status)

unfoldable pub next_status : PodStatus → Option PodStatus
next_status current = elim (transitions current) [ [] ↦ none | s ∷ rest ↦ some s ]

-- `(from_status, to_status) in PAPERCLIP_REQUIRED_TRANSITIONS`
unfoldable pub requires_paperclip : PodStatus → PodStatus → Bool
requires_paperclip from_status to_status =
    same from_status delivery_confirmed && same to_status settlement_eligible

-- A stage is followed by the next one only.
pub can_transition-rank : (a b : PodStatus) → can_transition a b ≡ (rank b == rank a + 1)
unfolding can_transition
can_transition-rank uploaded b = elim b as (λ b. can_transition uploaded b ≡ (rank b == 1)) [
  | uploaded ↦ refl
  | verification_pending ↦ refl
  | verified ↦ refl
  | delivery_confirmed ↦ refl
  | settlement_eligible ↦ refl
]
can_transition-rank verification_pending b =
    elim b as (λ b. can_transition verification_pending b ≡ (rank b == 2)) [
      | uploaded ↦ refl
      | verification_pending ↦ refl
      | verified ↦ refl
      | delivery_confirmed ↦ refl
      | settlement_eligible ↦ refl
    ]
can_transition-rank verified b = elim b as (λ b. can_transition verified b ≡ (rank b == 3)) [
  | uploaded ↦ refl
  | verification_pending ↦ refl
  | verified ↦ refl
  | delivery_confirmed ↦ refl
  | settlement_eligible ↦ refl
]
can_transition-rank delivery_confirmed b =
    elim b as (λ b. can_transition delivery_confirmed b ≡ (rank b == 4)) [
      | uploaded ↦ refl
      | verification_pending ↦ refl
      | verified ↦ refl
      | delivery_confirmed ↦ refl
      | settlement_eligible ↦ refl
    ]
can_transition-rank settlement_eligible b =
    elim b as (λ b. can_transition settlement_eligible b ≡ (rank b == 5)) [
      | uploaded ↦ refl
      | verification_pending ↦ refl
      | verified ↦ refl
      | delivery_confirmed ↦ refl
      | settlement_eligible ↦ refl
    ]
