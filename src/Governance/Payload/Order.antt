-- ===== src/Governance/Payload/Order.antt =====
-- api/services/paperclip.py: the order of the keys of a payload, and that a payload's text does not depend on
-- the order in which its keys come.
use Prim.Native.Char.{code}
use mathlib.Core.Path.{ap₂}
use text.Mathlib.TextPositions.{compare_self}
use text.Mathlib.TextEquality.{codes_equal}
use new_logistic.Prelude.{
  ℕ, String, true, false, ◌≡◌, refl, sym, ap, ◌∙◌, List, [], ◌∷◌, ◌==◌, nat_eq, string_eq, arith,
  Bool-cases, inl, inr, ◌⊎◌, eq_iff,
}
use new_logistic.Prelude.Text.{codes}
use new_logistic.Prelude.Dict.{Dict}
use new_logistic.Governance.Payload.{precedes, key_leb, place}

precedes_total : (s t : List ℕ) → (precedes s t ≡ true) ⊎ (precedes t s ≡ true)
unfolding precedes
precedes_total [] t = inl refl
precedes_total (c ∷ s) [] = inr refl
precedes_total (c ∷ s) (d ∷ t) = let rest = precedes_total s t in ground (arith, rest)

precedes_trans : (s t u : List ℕ) → precedes s t ≡ true → precedes t u ≡ true → precedes s u ≡ true
unfolding precedes
precedes_trans [] t u h k = refl
precedes_trans (c ∷ s) [] u h k = absurd (cc)
precedes_trans (c ∷ s) (d ∷ t) [] h k = absurd (cc)
precedes_trans (c ∷ s) (d ∷ t) (e ∷ u) h k =
    let rest = precedes_trans s t u in ground (arith, h, k, rest)

precedes_antisym : (s t : List ℕ) → precedes s t ≡ true → precedes t s ≡ true → s ≡ t
unfolding precedes
precedes_antisym [] [] h k = refl
precedes_antisym [] (d ∷ t) h k = absurd (cc)
precedes_antisym (c ∷ s) [] h k = absurd (cc)
precedes_antisym (c ∷ s) (d ∷ t) h k =
    let rest : precedes s t ≡ true → precedes t s ≡ true → s ≡ t = precedes_antisym s t in
    let same : c ≡ d = ground (arith, h, k) in
    ap₂ ◌∷◌ same (rest (ground (arith, h, k)) (ground (arith, h, k)))

codes_injective : (s t : String) → codes s ≡ codes t → s ≡ t
codes_injective String.[] String.[] e = refl
codes_injective String.[] (String.◌∷◌ d t) e = absurd (cc)
codes_injective (String.◌∷◌ c s) String.[] e = absurd (cc)
codes_injective (String.◌∷◌ c s) (String.◌∷◌ d t) e =
    let same : code c ≡ code d = cc in
    ap₂ String.◌∷◌ (codes_equal c d (rw (same) (compare_self (code d)))) (codes_injective s t cc)

-- The keys have a linear order.
key_leb_total : (j k : String) → (key_leb j k ≡ true) ⊎ (key_leb k j ≡ true)
unfolding key_leb
key_leb_total j k = let rest = precedes_total (codes j) (codes k) in ground (arith, rest)

key_leb_trans : (i j k : String) → key_leb i j ≡ true → key_leb j k ≡ true → key_leb i k ≡ true
unfolding key_leb
key_leb_trans i j k h h' =
    let rest = precedes_trans (codes i) (codes j) (codes k) in ground (arith, h, h', rest)

key_leb_antisym : (j k : String) → key_leb j k ≡ true → key_leb k j ≡ true → j ≡ k
unfolding key_leb
key_leb_antisym j k h h' =
    codes_injective j k
      (precedes_antisym (codes j) (codes k) (ground (arith, h, h')) (ground (arith, h, h')))

-- Of two keys, one comes first.
one_first :
    (j k : String)
    → j == k ≡ false
    → ((key_leb j k ≡ true) × (key_leb k j ≡ false))
      ⊎ ((key_leb j k ≡ false) × (key_leb k j ≡ true))
one_first j k differ =
    let total = key_leb_total j k in
    let antisym = key_leb_antisym j k in
    let same = (eq_iff j k).1 in
    elim (Bool-cases (key_leb j k)) [
      | inl a ↦ elim (Bool-cases (key_leb k j)) [
        | inl b ↦ let equal = same (antisym a b) in absurd (ground (arith, equal, differ))
        | inr b ↦ inl (a, b)
      ]
      | inr a ↦ inr (a, ground (arith, total, a))
    ]

-- The entries before, beside and after another one.
place_low :
    (e h : String × String) (d : Dict String) → key_leb e.0 h.0 ≡ true → place e (h ∷ d) ≡ e ∷ h ∷ d
unfolding place
place_low e h d a = rw (a) refl

place_high :
    (e h : String × String) (d : Dict String)
    → key_leb e.0 h.0 ≡ false
    → place e (h ∷ d) ≡ h ∷ place e d
unfolding place
place_high e h d a = rw (a) refl

-- An entry before another one that stands first.
place_first :
    (e f h : String × String) (d : Dict String)
    → key_leb e.0 f.0 ≡ true
    → key_leb f.0 e.0 ≡ false
    → place f (h ∷ d) ≡ f ∷ h ∷ d
    → place e (h ∷ d) ≡ e ∷ h ∷ d
    → place e (place f (h ∷ d)) ≡ place f (place e (h ∷ d))
place_first e f h d a b low low' =
    ap (place e) low
    ∙ place_low e f (h ∷ d) a
    ∙ ap (λ r. e ∷ r) (sym low)
    ∙ sym (place_high f e (h ∷ d) b)
    ∙ ap (place f) (sym low')

-- An entry that comes before one which another entry comes after.
place_around :
    (e f h : String × String) (d : Dict String)
    → key_leb e.0 h.0 ≡ true
    → key_leb f.0 h.0 ≡ false
    → place e (place f (h ∷ d)) ≡ place f (place e (h ∷ d))
place_around e f h d a b =
    let trans = key_leb_trans f.0 e.0 h.0 in
    let after : key_leb f.0 e.0 ≡ false = ground (arith, trans, a, b) in
    ap (place e) (place_high f h d b)
    ∙ place_low e h (place f d) a
    ∙ ap (λ r. e ∷ r) (sym (place_high f h d b))
    ∙ sym (place_high f e (h ∷ d) after)
    ∙ ap (place f) (sym (place_low e h d a))

-- Entries with different keys may be placed in either order.
pub place_comm :
    (e f : String × String) (d : Dict String)
    → e.0 == f.0 ≡ false
    → place e (place f d) ≡ place f (place e d)
unfolding place
place_comm e f [] differ = elim (one_first e.0 f.0 differ) [
  | inl (a, b) ↦ rw (a, b) refl
  | inr (a, b) ↦ rw (a, b) refl
]
place_comm e f (h ∷ d) differ = elim (Bool-cases (key_leb e.0 h.0)) [
  | inl a ↦ elim (Bool-cases (key_leb f.0 h.0)) [
    | inl b ↦ elim (one_first e.0 f.0 differ) [
      | inl (x, y) ↦ place_first e f h d x y (place_low f h d b) (place_low e h d a)
      | inr (x, y) ↦ sym (place_first f e h d y x (place_low e h d a) (place_low f h d b))
    ]
    | inr b ↦ place_around e f h d a b
  ]
  | inr a ↦ elim (Bool-cases (key_leb f.0 h.0)) [
    | inl b ↦ sym (place_around f e h d b a)
    | inr b ↦
        ap (place e) (place_high f h d b)
        ∙ place_high e h (place f d) a
        ∙ ap (λ r. h ∷ r) (place_comm e f d differ)
        ∙ sym (place_high f h (place e d) b)
        ∙ ap (place f) (sym (place_high e h d a))
  ]
]
