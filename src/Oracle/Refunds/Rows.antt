-- ===== src/Oracle/Refunds/Rows.antt =====
-- prototypes/xano/reference_model.py: the rows of refunds, each approved by somebody else.
use new_logistic.Prelude.{
  ◌≡◌, refl, sym, subst, String, Bool, true, false, none, some, List, [], ◌∷◌, ◌++◌, ◌==◌, ◌&&◌,
  string_eq, not, arith, Bool-cases, inl, inr, eq_iff,
}
use new_logistic.Oracle.{Principal, Refund, find, update}
use new_logistic.Oracle.Refunds.{is_refund}

-- A refund is not approved by the one who has requested it.
abbrev pub is_proper : Refund → Bool
is_proper r = elim r.approved_by [ none ↦ true | some by ↦ not (by == r.requester) ]

abbrev pub all_proper : List Refund → Bool
all_proper [] = true
all_proper (r ∷ refunds) = is_proper r && all_proper refunds

-- The id of a refund stands once.
abbrev pub IsDistinct : List Refund → Type 0
IsDistinct [] = Unit
IsDistinct (r ∷ refunds) = (find (λ s. s.id == r.id) refunds ≡ none) × IsDistinct refunds

-- What holds of the refunds between two calls.
pub record IsSound (refunds : List Refund) : Type 0 where
  pub proper : all_proper refunds ≡ true
  pub distinct : IsDistinct refunds

pub all_proper-append :
    (refunds : List Refund) (r : Refund)
    → all_proper (refunds ++ r ∷ []) ≡ (all_proper refunds && is_proper r)
all_proper-append [] r = ground (arith)
all_proper-append (s ∷ refunds) r = ground (arith, all_proper-append refunds r)

find-append-none :
    (id : String) (refunds : List Refund) (r : Refund)
    → find (λ s. s.id == id) refunds ≡ none
    → (r.id == id) ≡ false
    → find (λ s. s.id == id) (refunds ++ r ∷ []) ≡ none
find-append-none id [] r h e = rw (e) refl
find-append-none id (s ∷ refunds) r h e =
    ground (arith, find-append-none id refunds r, Bool-cases (s.id == id))

pub IsDistinct-append :
    (refunds : List Refund) (r : Refund)
    → find (λ s. s.id == r.id) refunds ≡ none
    → IsDistinct refunds
    → IsDistinct (refunds ++ r ∷ [])
IsDistinct-append [] r h d = (refl, tt)
IsDistinct-append (s ∷ refunds) r h d = ground (
  arith,
  Bool-cases (s.id == r.id),
  eq_iff s.id r.id,
  eq_iff r.id s.id,
  find-append-none s.id refunds r d.0,
  IsDistinct-append refunds r,
  d.1,
)

find-update :
    (id other by : String) (refunds : List Refund)
    → find (λ s. s.id == id) refunds ≡ none
    → find
        (λ s. s.id == id)
        (update (λ r. r.id == other) (λ r. record r { approved_by = some by }) refunds)
      ≡ none
find-update id other by [] h = refl
find-update id other by (s ∷ refunds) h =
    ground
      (arith, find-update id other by refunds, Bool-cases (s.id == id), Bool-cases (s.id == other))

pub IsDistinct-update :
    (id by : String) (refunds : List Refund)
    → IsDistinct refunds
    → IsDistinct (update (λ r. r.id == id) (λ r. record r { approved_by = some by }) refunds)
IsDistinct-update id by [] d = tt
IsDistinct-update id by (s ∷ refunds) d = ground (
  arith,
  Bool-cases (s.id == id),
  find-update s.id id by refunds d.0,
  IsDistinct-update id by refunds d.1,
)

-- No refund of the id is there to be changed.
all_proper-update-none :
    (id by : String) (refunds : List Refund)
    → find (λ s. s.id == id) refunds ≡ none
    → update (λ r. r.id == id) (λ r. record r { approved_by = some by }) refunds ≡ refunds
all_proper-update-none id by [] h = refl
all_proper-update-none id by (s ∷ refunds) h =
    ground (arith, Bool-cases (s.id == id), all_proper-update-none id by refunds)

-- What no row of the id is, is no row of the tenant.
find-is_refund :
    (p : Principal) (id : String) (refunds : List Refund)
    → find (λ s. s.id == id) refunds ≡ none
    → find (is_refund p id) refunds ≡ none
find-is_refund p id [] h = refl
find-is_refund p id (s ∷ refunds) h =
    ground (arith, Bool-cases (s.id == id), find-is_refund p id refunds)

pub all_proper-update :
    (p : Principal) (id : String) (refunds : List Refund) (r : Refund)
    → find (is_refund p id) refunds ≡ some r
    → (r.requester == p.account) ≡ false
    → IsSound refunds
    → all_proper (update (λ r. r.id == id) (λ r. record r { approved_by = some p.account }) refunds)
      ≡ true
all_proper-update p id [] r e other c = absurd (ground (arith))
all_proper-update p id (s ∷ refunds) r e other c = elim (Bool-cases (s.id == id)) [
  | inl here ↦
      let same : id ≡ s.id = ground (arith, eq_iff s.id id) in
      let gone = subst (λ i. find (λ t. t.id == i) refunds ≡ none) (sym same) c.distinct.0 in
      let is_s : s ≡ r = ground (arith, here, find-is_refund p id refunds gone) in
      let by_other : (s.requester == p.account) ≡ false = ground (arith, is_s, other) in
      ground (
        arith,
        here,
        c.proper,
        all_proper-update-none id p.account refunds gone,
        by_other,
        eq_iff s.requester p.account,
        eq_iff p.account s.requester,
      )
  | inr there ↦ ground (
    arith,
    there,
    c.proper,
    all_proper-update p id refunds r (ground (arith)) other
        (record { proper = ground (arith, c.proper); distinct = c.distinct.1 }),
  )
]
