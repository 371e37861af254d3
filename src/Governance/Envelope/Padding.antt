-- ===== src/Governance/Envelope/Padding.antt =====
-- api/services/paperclip_envelope.py: the `=` that `to_string` drops and `verify_string` adds again.
use Prim.Native.String.{count, ◌∷◌}
use Prim.Native.Char.{Char, code}
use text.Mathlib.TextLemmas.{nil-append, cons-append, length-cons, head-eq_of_cons-eq}
use mathlib.Core.Path.{ap₂}
use new_logistic.Prelude.{
  ℕ, zero, suc, ◌+◌, ◌%◌, ◌<◌, String, concat, Bool, true, ltb, ◌≡◌, refl, ap, ◌==◌, nat_eq,
  string_eq, if◌then◌else◌, arith, eq_iff, Bool-cases, inl, inr, sym, ◌∙◌,
}
use new_logistic.Prelude.Text.{codes}
use new_logistic.Governance.Envelope.{rstrip, padding}
use new_logistic.Governance.Signer.{is_ascii}

-- What `rstrip` does to a character before a text, and how many `=` end that text.
abbrev pub trailing_of : String → Bool → ℕ → ℕ
trailing_of String.[] b k = if b then suc k else k
trailing_of (d ∷ t) b k = k

-- How many `=` end the text.
unfoldable pub trailing : String → ℕ
trailing String.[] = 0
trailing (c ∷ s) = trailing_of (rstrip s) (c ∷ String.[] == "=") (trailing s)

equals : ℕ → String
equals zero = String.[]
equals (suc k) = "=" ∷ equals k

-- One more character before a text of which `r` is left.
strip_cons : Char → String → String
strip_cons c String.[] = if c ∷ String.[] == "=" then String.[] else c ∷ String.[]
strip_cons c (d ∷ t) = c ∷ d ∷ t

strip_text :
    (c : Char) (s r : String) (k : ℕ)
    → concat r (equals k) ≡ s
    → concat (strip_cons c r) (equals (trailing_of r (c ∷ String.[] == "=") k)) ≡ c ∷ s
unfolding strip_cons equals
strip_text c s String.[] k h = elim (Bool-cases (c ∷ String.[] == "=")) [
  | inl same ↦
      let e : c ∷ String.[] ≡ "=" = (eq_iff (c ∷ String.[]) "=").0 same in
      let head = head-eq_of_cons-eq e in
      rw (same) (nil-append ("=" ∷ equals k) ∙ ap₂ ◌∷◌ (sym head) (sym (nil-append (equals k)) ∙ h))
  | inr other ↦ rw (other) (cons-append c String.[] (equals k) ∙ ap (◌∷◌ c) h)
]
strip_text c s (d ∷ t) k h = cons-append c (d ∷ t) (equals k) ∙ ap (◌∷◌ c) h

strip_count :
    (c : Char) (s r : String) (k : ℕ)
    → count r + k ≡ count s
    → count (strip_cons c r) + trailing_of r (c ∷ String.[] == "=") k ≡ count (c ∷ s)
unfolding strip_cons
strip_count c s String.[] k h = elim (Bool-cases (c ∷ String.[] == "=")) [
  | inl same ↦ rw (same) (omega (arith, h, length-cons c s))
  | inr other ↦ rw (other) (omega (arith, h, length-cons c s, length-cons c String.[]))
]
strip_count c s (d ∷ t) k h = omega (arith, h, length-cons c s, length-cons c (d ∷ t))

rstrip-trailing : (t : String) → concat (rstrip t) (equals (trailing t)) ≡ t
unfolding rstrip trailing equals strip_cons
rstrip-trailing String.[] = refl
rstrip-trailing (c ∷ s) = strip_text c s (rstrip s) (trailing s) (rstrip-trailing s)

count-trailing : (t : String) → count (rstrip t) + trailing t ≡ count t
unfolding rstrip trailing strip_cons
count-trailing String.[] = refl
count-trailing (c ∷ s) = strip_count c s (rstrip s) (trailing s) (count-trailing s)

padding-equals : (n k : ℕ) → (n + k) % 4 ≡ 0 → k < 4 → padding n ≡ equals k
unfolding padding equals
padding-equals n zero whole few = ground arith
padding-equals n (suc zero) whole few = ground arith
padding-equals n (suc (suc zero)) whole few = ground arith
padding-equals n (suc (suc (suc zero))) whole few = ground arith
padding-equals n (suc (suc (suc (suc k)))) whole few = absurd (omega (arith, few))

ascii_cons :
    (c : Char) (r : String)
    → ltb (code c) 128 ≡ true
    → is_ascii (codes r) ≡ true
    → is_ascii (codes (strip_cons c r)) ≡ true
unfolding strip_cons
ascii_cons c String.[] low h = elim (Bool-cases (c ∷ String.[] == "=")) [
  | inl same ↦ rw (same) refl
  | inr other ↦ rw (other, low) refl
]
ascii_cons c (d ∷ t) low h = rw (low) h

-- What is left of an ASCII text is ASCII.
pub is_ascii-rstrip : (t : String) → is_ascii (codes t) ≡ true → is_ascii (codes (rstrip t)) ≡ true
unfolding rstrip strip_cons
is_ascii-rstrip String.[] h = refl
is_ascii-rstrip (c ∷ s) h =
    ascii_cons c (rstrip s) (ground (arith, h)) (is_ascii-rstrip s (ground (arith, h)))

-- A text of Base64 is what is left without its last `=`, and the padding that this needs.
pub rstrip-padding :
    (t : String)
    → count t % 4 ≡ 0
    → trailing t < 4
    → concat (rstrip t) (padding (count (rstrip t))) ≡ t
rstrip-padding t whole few =
    ap (concat (rstrip t))
      (padding-equals (count (rstrip t)) (trailing t) (omega (arith, count-trailing t, whole)) few)
    ∙ rstrip-trailing t
