-- ===== src/Telemetry/Redaction/Secret.antt =====
-- workers/src/zippy_workers/telemetry_redaction.py: the texts that `_looks_like_secret` finds.
use new_logistic.Prelude.{
  ℕ, String, Bool, true, false, not, ◌≡◌, ◌≤◌, ◌↔◌, ◌⊎◌, inl, inr, refl, ap, sym, subst, ◌∙◌, List,
  [], ◌∷◌, ◌++◌, nat_eq, ◌&&◌, ◌||◌, ltb, length, Bool-cases, arith,
}
use new_logistic.Prelude.Text.{codes, begins}
use new_logistic.Telemetry.Redaction.{secret_prefixes, begins_one, has, after_at, looks_secret}

-- The text begins with one of the prefixes.
abbrev pub IsPrefixed : List String → List ℕ → Type 0
IsPrefixed [] s = ⊥
IsPrefixed (p ∷ ps) s = ((rest : List ℕ) × (s ≡ codes p ++ rest)) ⊎ IsPrefixed ps s

-- What follows the last `@` of the text has a dot.
abbrev pub IsAddress : List ℕ → Type 0
IsAddress s =
    (local : List ℕ) × (domain : List ℕ) × (s ≡ local ++ b'@' ∷ domain)
    × (has b'@' domain ≡ false)
    × (has b'.' domain ≡ true)

-- A long text with a slash and a dot.
abbrev pub IsLocation : List ℕ → Type 0
IsLocation s = (has b'/' s ≡ true) × (has b'.' s ≡ true) × (31 ≤ length s)

-- A text that looks like a secret: it has eight characters or more, and begins with a prefix of a
-- secret, or is an address, or is a location.
abbrev pub IsSecret : List ℕ → Type 0
IsSecret s = (8 ≤ length s) × (IsPrefixed secret_prefixes s ⊎ IsAddress s ⊎ IsLocation s)

begins→append : (p s : List ℕ) → begins p s ≡ true → (rest : List ℕ) × (s ≡ p ++ rest)
begins→append [] s h = (s, refl)
begins→append (c ∷ p) [] h = absurd (cc)
begins→append (c ∷ p) (d ∷ s) h =
    let rest = begins→append p s (ground (arith, h)) in
    let same : c ≡ d = ground (arith, h) in (rest.0, cc)

append→begins : (p rest : List ℕ) → begins p (p ++ rest) ≡ true
append→begins [] rest = refl
append→begins (c ∷ p) rest = ground (arith, append→begins p rest)

begins_one→IsPrefixed : (ps : List String) (s : List ℕ) → begins_one ps s ≡ true → IsPrefixed ps s
begins_one→IsPrefixed [] s h = absurd (cc)
begins_one→IsPrefixed (p ∷ ps) s h = elim (Bool-cases (begins (codes p) s)) [
  | inl here ↦ inl (begins→append (codes p) s here)
  | inr there ↦ inr (begins_one→IsPrefixed ps s (ground (arith, h, there)))
]

IsPrefixed→begins_one : (ps : List String) (s : List ℕ) → IsPrefixed ps s → begins_one ps s ≡ true
IsPrefixed→begins_one [] s h = elim h [ ]
IsPrefixed→begins_one (p ∷ ps) s (inl (rest, e)) =
    let here : begins (codes p) s ≡ true = rw (e) (append→begins (codes p) rest) in
    ground (arith, here)
IsPrefixed→begins_one (p ∷ ps) s (inr there) = ground (arith, IsPrefixed→begins_one ps s there)

after_at_plain : (s : List ℕ) → has b'@' s ≡ false → after_at s ≡ s
after_at_plain [] h = refl
after_at_plain (c ∷ s) h = rw (h) refl

after_at_step : (c : ℕ) (s : List ℕ) → has b'@' (c ∷ s) ≡ true → after_at (c ∷ s) ≡ after_at s
after_at_step c s h = rw (h) refl

-- The text up to the last `@`.
abbrev IsSplit : List ℕ → List ℕ → Type 0
IsSplit s domain = (local : List ℕ) × (s ≡ local ++ b'@' ∷ domain) × (has b'@' domain ≡ false)

IsSplit-after_at : (s : List ℕ) → has b'@' s ≡ true → IsSplit s (after_at s)
IsSplit-after_at [] h = absurd (cc)
IsSplit-after_at (c ∷ s) h = elim (Bool-cases (has b'@' s)) [
  | inl more ↦
      let rest = IsSplit-after_at s more in
      let longer : IsSplit (c ∷ s) (after_at s) = (c ∷ rest.0, ap (λ t. c ∷ t) rest.1, rest.2) in
      subst (IsSplit (c ∷ s)) (sym (after_at_step c s h)) longer
  | inr last ↦
      let at : c ≡ b'@' = ground (arith, h, last) in
      let whole : IsSplit (c ∷ s) s = ([], ap (λ d. d ∷ s) at, last) in
      subst (IsSplit (c ∷ s)) (sym (after_at_step c s h ∙ after_at_plain s last)) whole
]

has_at : (local domain : List ℕ) → has b'@' (local ++ b'@' ∷ domain) ≡ true
has_at [] domain = refl
has_at (c ∷ local) domain = ground (arith, has_at local domain)

after_at_append :
    (local domain : List ℕ) → has b'@' domain ≡ false → after_at (local ++ b'@' ∷ domain) ≡ domain
after_at_append [] domain h = after_at_plain domain h
after_at_append (c ∷ local) domain h =
    ground (arith, has_at local domain, after_at_append local domain h)

IsAddress-after_at :
    (s : List ℕ) → IsAddress s → (has b'@' s ≡ true) × (has b'.' (after_at s) ≡ true)
IsAddress-after_at s (local, domain, e, plain, dot) = (
  ap (has b'@') e ∙ has_at local domain,
  ap (λ t. has b'.' (after_at t)) e ∙ ap (has b'.') (after_at_append local domain plain) ∙ dot,
)

after_at-IsAddress : (s : List ℕ) → has b'@' s ≡ true → has b'.' (after_at s) ≡ true → IsAddress s
after_at-IsAddress s at dot =
    let split = IsSplit-after_at s at in (split.0, after_at s, split.1, split.2, dot)

long_enough : (n : ℕ) (b : Bool) → (not (ltb n 8) && b) ≡ true → (8 ≤ n) × (b ≡ true)
long_enough n b h = ground (arith, h)

one_of_three : (a b c : Bool) → (a || b || c) ≡ true → (a ≡ true) ⊎ (b ≡ true) ⊎ (c ≡ true)
one_of_three true b c h = inl refl
one_of_three false true c h = inr (inl refl)
one_of_three false false c h = inr (inr h)

location_of :
    (b c : Bool) (n : ℕ) → (b && c && ltb 30 n) ≡ true → (b ≡ true) × (c ≡ true) × (31 ≤ n)
location_of b c n h = ground (arith, h)

both : (b c : Bool) → (b && c) ≡ true → (b ≡ true) × (c ≡ true)
both b c h = ground (arith, h)

looks_secret→IsSecret : (s : List ℕ) → looks_secret s ≡ true → IsSecret s
unfolding looks_secret
looks_secret→IsSecret s h =
    let long = long_enough (length s) _ h in
    elim (one_of_three (begins_one secret_prefixes s) _ _ long.1) [
      | inl known ↦ (long.0, inl (begins_one→IsPrefixed secret_prefixes s known))
      | inr (inl address) ↦
          let parts = both (has b'@' s) (has b'.' (after_at s)) address in
          (long.0, inr (inl (after_at-IsAddress s parts.0 parts.1)))
      | inr (inr location) ↦
          (long.0, inr (inr (location_of (has b'/' s) (has b'.' s) (length s) location)))
    ]

IsSecret→looks_secret : (s : List ℕ) → IsSecret s → looks_secret s ≡ true
unfolding looks_secret
IsSecret→looks_secret s (long, inl known) =
    ground (arith, long, IsPrefixed→begins_one secret_prefixes s known)
IsSecret→looks_secret s (long, inr (inl address)) =
    ground (arith, long, IsAddress-after_at s address)
IsSecret→looks_secret s (long, inr (inr location)) = ground (arith, long, location)

-- What the code finds are the texts that look like a secret.
pub looks_secret-IsSecret_iff : (s : List ℕ) → (looks_secret s ≡ true) ↔ IsSecret s
looks_secret-IsSecret_iff s = (looks_secret→IsSecret s, IsSecret→looks_secret s)
