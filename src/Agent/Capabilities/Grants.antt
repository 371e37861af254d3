-- ===== src/Agent/Capabilities/Grants.antt =====
-- What the matrix of workers/src/zippy_workers/capabilities.py grants, over all agents and domains.
use new_logistic.Prelude.{
  String, ◌≡◌, ◌≢◌, ◌↔◌, ◌⊎◌, refl, true, false, List, [], ◌∷◌, arith, string_eq, eq_iff, none,
  some, Option-cases, inl, inr, subst, sym, elem, ◌||◌,
}
use new_logistic.Prelude.Dict.{lookup, lookup-All}
use new_logistic.Agent.Capabilities.{
  Capability, matrix, has_capability, assert_can_call_external, assert_financial, is_forbidden,
  granted, unauthorized,
}

-- The entry of `payment_settlement`, and no other, is financial, has a payment provider, and writes
-- to the ledgers; and each of these three at once.
record IsSettled (agent : String) (cap : Capability) : Type 0 where
  only :
      cap.financial || elem "razorpay" cap.external || elem "stripe" cap.external ≡ true
      → agent ≡ "payment_settlement"
  provider :
      (elem "razorpay" cap.external ≡ cap.financial) × (elem "stripe" cap.external ≡ cap.financial)
  confined : elem "*" cap.forbidden ≡ false
  writer :
      (elem "*" cap.write
        || elem "payments" cap.write
        || elem "transactions" cap.write
        || elem "settlements" cap.write)
      ≡ cap.financial

matrix-IsSettled :
    (agent : String) {cap : Capability} → lookup agent matrix ≡ some cap → IsSettled agent cap
unfolding matrix
matrix-IsSettled agent e = lookup-All IsSettled matrix (ground arith) agent e

settlement-financial : assert_financial "payment_settlement" ≡ granted
unfolding assert_financial matrix
settlement-financial = refl

financial_only : (agent : String) → assert_financial agent ≡ granted → agent ≡ "payment_settlement"
unfolding assert_financial
financial_only agent h = elim (Option-cases (lookup agent matrix)) [
  | inl unknown ↦ ground arith
  | inr (cap, e) ↦
      let row : IsSettled agent cap = matrix-IsSettled agent e in row.only (ground arith)
]

-- Money may be moved by `payment_settlement` and by no other agent, known or unknown.
pub assert_financial-granted_iff :
    (agent : String) → (assert_financial agent ≡ granted) ↔ (agent ≡ "payment_settlement")
assert_financial-granted_iff agent = (financial_only agent, λ e. rw e settlement-financial)

-- For every agent, the checks for a call of either payment provider and the check for a financial
-- action have one outcome.
pub provider-eq-financial :
    (agent : String)
    → (assert_can_call_external agent "razorpay" ≡ assert_financial agent)
      × (assert_can_call_external agent "stripe" ≡ assert_financial agent)
unfolding assert_financial assert_can_call_external
provider-eq-financial agent = elim (Option-cases (lookup agent matrix)) [
  | inl unknown ↦ ground arith
  | inr (cap, e) ↦ let row : IsSettled agent cap = matrix-IsSettled agent e in ground arith
]

abbrev pub ledgers : List String
ledgers = "payments" ∷ "transactions" ∷ "settlements" ∷ []

ledgers-cases :
    (domain : String)
    → elem domain ledgers ≡ true
    → (domain ≡ "payments") ⊎ (domain ≡ "transactions") ⊎ (domain ≡ "settlements")
ledgers-cases domain h =
    ground
      (arith, eq_iff domain "payments", eq_iff domain "transactions", eq_iff domain "settlements")

module _ {agent : String} {cap : Capability} (row : IsSettled agent cap) where
  -- Who writes to the domain is financial.
  abbrev WriterIsFinancial : String → Type 0
  WriterIsFinancial domain =
      elem "*" cap.write || elem domain cap.write ≡ true → cap.financial ≡ true

  ledger_writer : (domain : String) → elem domain ledgers ≡ true → WriterIsFinancial domain
  ledger_writer domain l = elim (ledgers-cases domain l) [
    | inl e ↦ subst WriterIsFinancial (sym e) (λ h. ground arith)
    | inr (inl e) ↦ subst WriterIsFinancial (sym e) (λ h. ground arith)
    | inr (inr e) ↦ subst WriterIsFinancial (sym e) (λ h. ground arith)
  ]

-- A scope other than `read` on a ledger is held by `payment_settlement` alone.
pub ledger_writers :
    (agent scope domain : String)
    → scope ≢ "read"
    → elem domain ledgers ≡ true
    → has_capability agent scope domain ≡ true
    → agent ≡ "payment_settlement"
unfolding has_capability
ledger_writers agent scope domain ns l h = elim (Option-cases (lookup agent matrix)) [
  | inl unknown ↦ ground arith
  | inr (cap, e) ↦
      let row : IsSettled agent cap = matrix-IsSettled agent e in
      row.only (ground (arith, ledger_writer row domain l, eq_iff scope "read"))
]

-- What is forbidden to an agent it holds in no scope, and an agent that the matrix does not name
-- holds nothing, in any scope.
pub forbidden_wins :
    (agent scope domain : String)
    → (is_forbidden agent domain ≡ true → has_capability agent scope domain ≡ false)
      × (lookup agent matrix ≡ none
          → (has_capability agent scope domain ≡ false)
            × (assert_can_call_external agent domain ≡ unauthorized)
            × (assert_financial agent ≡ unauthorized))
unfolding has_capability is_forbidden assert_can_call_external assert_financial
forbidden_wins agent scope domain = ground arith
