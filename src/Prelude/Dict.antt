-- ===== src/Prelude/Dict.antt =====
-- A Python dict with text keys: a key's first entry counts, and a store keeps its place.
use Prim.Native.String.{String}
use mathlib.Core.Path.{◌≡◌, refl, subst}
use mathlib.Core.Logic.{inl, inr}
use mathlib.Core.Option.{Option, none, some}
use mathlib.Core.List.{List, [], ◌∷◌}
use native.Mathlib.Omega.{arith}
use text.Mathlib.TextEquality.{eq_iff}
use new_logistic.Prelude.Tests.{◌==◌, string_eq, if◌then◌else◌, Bool-cases}
use new_logistic.Prelude.Lists.{All}

abbrev pub Dict {ℓ} : Type ℓ → Type ℓ
Dict V = List (String × V)

module _ {ℓ} {V : Type ℓ} where
  -- `d.get(k)`
  abbrev pub lookup : String → Dict V → Option V
  lookup k [] = none
  lookup k ((j, v) ∷ d) = if j == k then some v else lookup k d

  -- `d[k] = v`
  abbrev pub insert : String → V → Dict V → Dict V
  insert k v [] = (k, v) ∷ []
  insert k v ((j, w) ∷ d) = if j == k then (j, v) ∷ d else (j, w) ∷ insert k v d

  -- What a lookup finds after a store.
  pub lookup-insert :
      (stored key : String) (value : V) (d : Dict V)
      → lookup key (insert stored value d) ≡ (if stored == key then some value else lookup key d)
  lookup-insert stored key value [] = refl
  lookup-insert stored key value ((first, w) ∷ d) =
      let rest = lookup-insert stored key value d in
      ground (arith, rest, eq_iff first stored, eq_iff first key, eq_iff stored key)

  -- What holds of every entry holds of what a lookup finds.
  pub lookup-All {κ} :
      (P : String → V → Type κ) (d : Dict V)
      → All (λ e. P e.0 e.1) d
      → (k : String) {v : V} → lookup k d ≡ some v
      → P k v
  lookup-All P [] h k e = absurd (cc)
  lookup-All P ((j, w) ∷ d) h k {v} e = elim (Bool-cases (j == k)) [
    | inl same ↦
        let found : w ≡ v = ground arith in
        subst (λ i. P i v) ((eq_iff j k).0 same) (subst (P j) found h.0)
    | inr other ↦ lookup-All P d h.1 k (ground arith)
  ]
