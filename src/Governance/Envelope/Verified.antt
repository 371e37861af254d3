-- ===== src/Governance/Envelope/Verified.antt =====
-- api/services/paperclip_envelope.py: which envelopes `verify` accepts.
use new_logistic.Prelude.{
  ℕ, String, Bool, true, false, Option, none, some, ◌≡◌, ◌↔◌, ◌&&◌, string_eq, arith, eq_iff, refl,
  subst, sym,
}
use new_logistic.Prelude.Json.{Json, null, bool, int, minus, float, arr, obj, str, is_str}
use new_logistic.Prelude.Int.{pos, ◌-ℤ◌, below, at_most}
use new_logistic.Governance.{Library}
use new_logistic.Governance.Envelope.{SignedEnvelope, Checked, fails, passes, parsed, unpack}
use new_logistic.Governance.Signer.{
  EnvelopeSigner, Bindings, signature_agrees, fits_text, fits_id, sign, digest_agrees,
  verify_claims, verify, demand, verify_string, and_then,
}

-- Each of the values that a caller asks for is that of the envelope.
abbrev pub matches : Bindings → SignedEnvelope → Bool
matches wanted e =
    fits_text wanted.purpose e.purpose
    && fits_text wanted.subject e.subject
    && fits_id wanted.tenant_id (some e.tenant_id)
    && fits_id wanted.agent_id (some e.agent_id)
    && fits_id wanted.proposal_id e.proposal_id
    && fits_id wanted.grant_id e.grant_id

-- Issued at or before now, not expired, and with a lifetime within the signer's limit.
abbrev pub is_live : EnvelopeSigner → ℕ → SignedEnvelope → Bool
is_live signer now e =
    at_most e.issued_at (pos now)
    && below (pos now) e.expires_at
    && below (pos 0) (e.expires_at -ℤ e.issued_at)
    && at_most (e.expires_at -ℤ e.issued_at) (pos signer.max_ttl)

identity : (P : Type 0) → P ↔ P
identity P = (λ x. x, λ x. x)

passes_iff : (e found : SignedEnvelope) → (passes e ≡ passes found) ↔ (found ≡ e)
passes_iff e found = (λ h. cc, λ h. cc)

-- The same conditions, in another order.
conjoin :
    (life short begun fresh u s t a p g : Bool) {P Q : Type 0}
    → P ↔ (
        (life && short && begun ≡ true)
        × ((fresh ≡ true)
            × ((u ≡ true)
                × ((s ≡ true) × ((t ≡ true) × ((a ≡ true) × ((p ≡ true) × ((g ≡ true) × Q))))))))
    → P ↔ ((begun && fresh && life && short ≡ true) × (u && s && t && a && p && g ≡ true) × Q)
conjoin life short begun fresh u s t a p g h = (
  λ x.
      let (l, (f, (u', (s', (t', (a', (p', (g', q)))))))) = h.0 x in
      (ground (arith, l, f), ground (arith, u', s', t', a', p', g'), q),
  λ (l, m, q). h.1 (
    ground (arith, l),
    (
      ground (arith, l),
      (
        ground (arith, m),
        (
          ground (arith, m),
          (ground (arith, m), (ground (arith, m), (ground (arith, m), (ground (arith, m), q)))),
        ),
      ),
    ),
  ),
)

-- A demand is met, and then what follows it.
demand-passes :
    (b : Bool) (code : String) (rest : Checked) {P : Type 0} {found : SignedEnvelope}
    → (rest ≡ passes found) ↔ P
    → (demand b code rest ≡ passes found) ↔ ((b ≡ true) × P)
demand-passes true code rest h = (λ e. (refl, h.0 e), λ p. h.1 p.1)
demand-passes false code rest h = (λ e. absurd (cc), λ p. absurd (ground (arith, p.0)))

pub verify_claims_iff :
    (signer : EnvelopeSigner) (now : ℕ) (e : SignedEnvelope) (wanted : Bindings)
    (found : SignedEnvelope)
    → (verify_claims signer now e wanted ≡ passes found)
      ↔ ((is_live signer now e ≡ true) × (matches wanted e ≡ true) × (found ≡ e))
unfolding verify_claims
verify_claims_iff signer now e wanted found =
    let life = below (pos 0) (e.expires_at -ℤ e.issued_at) in
    let short = at_most (e.expires_at -ℤ e.issued_at) (pos signer.max_ttl) in
    let begun = at_most e.issued_at (pos now) in
    let fresh = below (pos now) e.expires_at in
    let u = fits_text wanted.purpose e.purpose in
    let s = fits_text wanted.subject e.subject in
    let t = fits_id wanted.tenant_id (some e.tenant_id) in
    let a = fits_id wanted.agent_id (some e.agent_id) in
    let p = fits_id wanted.proposal_id e.proposal_id in
    let g = fits_id wanted.grant_id e.grant_id in
    let chain = demand-passes (life && short && begun) _ _ (
      demand-passes fresh _ _ (
        demand-passes u _ _ (
          demand-passes s _ _ (
            demand-passes t _ _ (
              demand-passes a _ _ (
                demand-passes p _ _ (
                  demand-passes g "ENVELOPE_GRANT_MISMATCH" (passes e)
                    (passes_iff e found)))))))) in
    conjoin life short begun fresh u s t a p g chain

-- A signature was made, and it is this one.
abbrev bears : Option String → Json → Bool
bears none v = false
bears (some s) v = is_str s v

-- The signer's own signature of the envelope is the one that it bears.
abbrev pub is_signed : Library → EnvelopeSigner → SignedEnvelope → Bool
is_signed python signer e = bears (sign python signer e) e.signature

digest-passes :
    (expected : String) (v : Json) (rest : Checked) {found : SignedEnvelope}
    → digest_agrees expected v rest ≡ passes found
    → (is_str expected v ≡ true) × (rest ≡ passes found)
digest-passes expected (str s) rest h =
    (ground (arith, h, eq_iff s expected, eq_iff expected s), ground (arith, h))
digest-passes expected null rest h = absurd (cc)
digest-passes expected (bool b) rest h = absurd (cc)
digest-passes expected (int n) rest h = absurd (cc)
digest-passes expected (minus n) rest h = absurd (cc)
digest-passes expected (float t) rest h = absurd (cc)
digest-passes expected (arr xs) rest h = absurd (cc)
digest-passes expected (obj fs) rest h = absurd (cc)

-- A signature that is made, and then agrees.
signed-passes :
    (made : Option String) (v : Json) (rest : Checked) {found : SignedEnvelope}
    → signature_agrees made v rest ≡ passes found
    → (bears made v ≡ true) × (rest ≡ passes found)
signed-passes none v rest h = absurd (cc)
signed-passes (some s) v rest h = digest-passes s v rest h

-- What `verify` accepts bears the signer's signature and its version, is live, and has each of the
-- values that the caller asks for; it is returned as it is.
pub verify-is_signed :
    (python : Library) (signer : EnvelopeSigner) (now : ℕ) (e : SignedEnvelope) (wanted : Bindings)
    (found : SignedEnvelope)
    → verify python signer now e wanted ≡ passes found
    → (is_str "m5b-v1" e.version ≡ true)
      × (is_signed python signer e ≡ true)
      × (is_live signer now e ≡ true)
      × (matches wanted e ≡ true)
      × (found ≡ e)
unfolding verify
verify-is_signed python signer now e wanted found h =
    let (version, rest) =
      (demand-passes (is_str "m5b-v1" e.version) "ENVELOPE_VERSION_MISMATCH" _ (identity _)).0 h in
    let (signed, claims) = signed-passes (sign python signer e) e.signature _ rest in
    let (live, fit, same) = (verify_claims_iff signer now e wanted found).0 claims in
    (version, signed, live, fit, same)

and_then-passes :
    (c : Checked) (k : SignedEnvelope → Checked) {found : SignedEnvelope}
    → and_then c k ≡ passes found
    → (e : SignedEnvelope) × (k e ≡ passes found)
and_then-passes (fails reason) k h = absurd (cc)
and_then-passes (passes e) k h = (e, h)

-- What `verify_string` accepts has each of the values that the caller asks for.
pub verify_string-matches :
    (python : Library) (signer : EnvelopeSigner) (now : ℕ) (token : String) (wanted : Bindings)
    {found : SignedEnvelope}
    → verify_string python signer now token wanted ≡ passes found
    → matches wanted found ≡ true
unfolding verify_string
verify_string-matches python signer now token wanted {found} h =
    let (e, verified) =
      and_then-passes (parsed python (unpack python token)) (λ e. verify python signer now e wanted)
        h in
    let facts = verify-is_signed python signer now e wanted found verified in
    subst (λ x. matches wanted x ≡ true) (sym facts.4) facts.3
