-- ===== src/Governance/Envelope/RoundTrip.antt =====
-- api/services/paperclip_envelope.py: an envelope that was issued is read back and verified.
use Prim.Native.String.{count}
use mathlib.Core.Path.{fun_ext}
use new_logistic.Prelude.{
  ℕ, ◌+◌, ◌%◌, ◌≤◌, ◌<◌, String, true, false, ◌||◌, Option, none, some, ◌≡◌, refl, ap, ◌∙◌, subst,
  sym, ◌↔◌, List, ◌==◌, nat_eq, string_eq, arith, eq_refl, Bool-cases, Option-cases, inl, inr,
}
use new_logistic.Prelude.Text.{codes}
use new_logistic.Prelude.Json.{Fields, obj, get?, truthy}
use new_logistic.Prelude.Int.{ℤ, pos, negsuc}
use new_logistic.Governance.{Library, Uuid}
use new_logistic.Governance.Envelope.{
  SignedEnvelope, passes, rstrip, canonical_payload, to_dict, from_lookup, from_dict, unpack,
  to_string, parsed, checked, int_of, int_json, id_json, optional_uuid,
}
use new_logistic.Governance.Signer.{
  EnvelopeSigner, Request, Bindings, clamp, is_ascii, sign, issue, verify, verify_string,
  verify_claims, unsigned, with_signature, signed_with, and_then,
}
use new_logistic.Governance.Envelope.Verified.{matches, is_live, verify_claims_iff}
use new_logistic.Governance.Envelope.Padding.{is_ascii-rstrip, trailing, rstrip-padding}

-- The id's text is not empty and reads as the id.
abbrev pub IsKnown : Library → Uuid → Type 0
IsKnown python u = (python.uuid u.text ≡ some u) × ((u.text == "") ≡ false)

abbrev pub IsKnownOption : Library → Option Uuid → Type 0
IsKnownOption python none = Unit
IsKnownOption python (some u) = IsKnown python u

-- What is relied on of the library at one envelope: its ids read back; Base64 decodes what it
-- encodes, in groups of four characters, of which at most three are padding; and `json.loads` gives
-- a dict of what `json.dumps` wrote, whose keys may come in another order.
pub record ReadsBack (python : Library) (e : SignedEnvelope) : Type 0 where
  pub read : Fields
  pub tenant : IsKnown python e.tenant_id
  pub agent : IsKnown python e.agent_id
  pub policy : IsKnown python e.policy_id
  pub proposal : IsKnownOption python e.proposal_id
  pub grant : IsKnownOption python e.grant_id
  pub decodes :
      python.decode (python.encode (python.dumps (to_dict e))) ≡ some (python.dumps (to_dict e))
  pub grouped : count (python.encode (python.dumps (to_dict e))) % 4 ≡ 0
  pub padded : trailing (python.encode (python.dumps (to_dict e))) < 4
  pub loads : python.loads (python.dumps (to_dict e)) ≡ some (obj read)
  pub finds : (k : String) → get? k read ≡ get? k (to_dict e)

module _ (python : Library) (e : SignedEnvelope) (reads : ReadsBack python e) where
  optional_uuid-id_json :
      (o : Option Uuid) → IsKnownOption python o → optional_uuid python (id_json o) ≡ some o
  unfolding truthy
  optional_uuid-id_json none h = refl
  optional_uuid-id_json (some u) (h, filled) = rw (filled, h) refl

  int_of-int_json : (z : ℤ) → int_of python (int_json z) ≡ some z
  int_of-int_json (pos n) = refl
  int_of-int_json (negsuc n) = refl

  from_lookup-to_dict : from_lookup python (λ k. get? k (to_dict e)) ≡ some e
  unfolding from_lookup to_dict get?
  from_lookup-to_dict =
      rw
        (
          reads.tenant.0,
          reads.agent.0,
          reads.policy.0,
          optional_uuid-id_json e.proposal_id reads.proposal,
          optional_uuid-id_json e.grant_id reads.grant,
          int_of-int_json e.issued_at,
          int_of-int_json e.expires_at,
        )
        refl

  unpack-to_string : unpack python (to_string python e) ≡ some (obj reads.read)
  unfolding unpack to_string
  unpack-to_string =
      rw
        (
          rstrip-padding (python.encode (python.dumps (to_dict e))) reads.grouped reads.padded,
          reads.decodes,
        )
        reads.loads

  -- What `to_string` wrote is read back.
  pub from_dict-to_string : from_dict python (obj reads.read) ≡ passes e
  unfolding from_dict
  from_dict-to_string =
      ap checked (ap (from_lookup python) (fun_ext reads.finds) ∙ from_lookup-to_dict)

  -- So a text is verified as the envelope that it was made of.
  verify_string-to_string :
      (signer : EnvelopeSigner) (now : ℕ) (wanted : Bindings)
      → verify_string python signer now (to_string python e) wanted
        ≡ verify python signer now e wanted
  unfolding verify_string
  verify_string-to_string signer now wanted =
      ap (λ c. and_then c (λ x. verify python signer now x wanted))
        (ap (parsed python) unpack-to_string ∙ from_dict-to_string)

-- What `issue` gives: the envelope with the signature that the signer makes of it.
signed_with-passes :
    (u : SignedEnvelope) (made : Option String) {e : SignedEnvelope}
    → signed_with u made ≡ passes e
    → (s : String) × (made ≡ some s) × (e ≡ with_signature s u)
signed_with-passes u none h = absurd (cc)
signed_with-passes u (some s) h = (s, refl, cc)

pub issue_lem :
    (python : Library) (signer : EnvelopeSigner) (r : Request) (purpose : String) (ttl : ℤ)
    (now : ℕ) (nonce : String) (e : SignedEnvelope)
    → issue python signer r purpose ttl now nonce ≡ passes e
    → (s : String) × (sign python signer (unsigned r purpose (clamp ttl signer.max_ttl) now nonce)
        ≡ some s)
      × (e ≡ with_signature s (unsigned r purpose (clamp ttl signer.max_ttl) now nonce))
unfolding issue
issue_lem python signer r purpose ttl now nonce e h =
    elim (Bool-cases (purpose == "proposal" || purpose == "grant")) [
      | inr other ↦ absurd (ground (arith, h, other))
      | inl known ↦
          let u = unsigned r purpose (clamp ttl signer.max_ttl) now nonce in
          signed_with-passes u (sign python signer u) (ground (arith, h, known))
    ]

-- Base64 is ASCII.
abbrev pub IsAscii : Library → Type 0
IsAscii python = (bytes : List ℕ) → is_ascii (codes (python.encode bytes)) ≡ true

-- A signature that was made is ASCII.
sign-is_ascii :
    (python : Library) (signer : EnvelopeSigner) (e : SignedEnvelope)
    → IsAscii python
    → {s : String} → sign python signer e ≡ some s
    → is_ascii (codes s) ≡ true
unfolding sign
sign-is_ascii python signer e ascii {s} signs =
    elim (Option-cases (python.canonical (canonical_payload e))) [
      | inl none' ↦ absurd (ground (arith, signs, none'))
      | inr (payload, is) ↦
          let mac = python.encode (python.mac signer.key payload) in
          let made : rstrip mac ≡ s = ground (arith, signs, is) in
          subst (λ t. is_ascii (codes t) ≡ true) made
            (is_ascii-rstrip mac (ascii (python.mac signer.key payload)))
    ]

verify_issued :
    (python : Library) (signer : EnvelopeSigner) (r : Request) (purpose : String)
    (ttl now later : ℕ) (nonce s : String) (wanted : Bindings)
    → IsAscii python
    → sign python signer (unsigned r purpose ttl now nonce) ≡ some s
    → verify python signer later (with_signature s (unsigned r purpose ttl now nonce)) wanted
      ≡ verify_claims signer later (with_signature s (unsigned r purpose ttl now nonce)) wanted
unfolding verify unsigned
verify_issued python signer r purpose ttl now later nonce s wanted ascii signs =
    let u = unsigned r purpose ttl now nonce in
    let e = with_signature s u in
    let again : sign python signer e ≡ some s = signs in
    let low = sign-is_ascii python signer u ascii signs in rw (again, low, eq_refl s) refl

-- An envelope that was issued is live until it expires.
is_live-issued :
    (signer : EnvelopeSigner) (r : Request) (purpose : String) (ttl : ℤ) (now later : ℕ)
    (nonce s : String)
    → now ≤ later
    → later < now + clamp ttl signer.max_ttl
    → is_live signer later
        (with_signature s (unsigned r purpose (clamp ttl signer.max_ttl) now nonce))
      ≡ true
unfolding unsigned
is_live-issued signer r purpose ttl now later nonce s after before = ground (arith, after, before)

-- An envelope that was issued and handed on as a text is verified until it expires, for the values
-- that it bears and for no others, and comes back as it was.
pub issue-to_string-verify_string :
    (python : Library) (signer : EnvelopeSigner) (r : Request) (purpose : String) (ttl : ℤ)
    (now later : ℕ) (nonce : String) (wanted : Bindings) (e : SignedEnvelope)
    → IsAscii python
    → ReadsBack python e
    → issue python signer r purpose ttl now nonce ≡ passes e
    → now ≤ later
    → later < now + clamp ttl signer.max_ttl
    → (verify_string python signer later (to_string python e) wanted ≡ passes e)
      ↔ (matches wanted e ≡ true)
issue-to_string-verify_string python signer r purpose ttl now later nonce wanted e ascii reads
      issued after before =
    let (s, signs, is) = issue_lem python signer r purpose ttl now nonce e issued in
    let ttl' = clamp ttl signer.max_ttl in
    let live : is_live signer later e ≡ true =
      rw (is) (is_live-issued signer r purpose ttl now later nonce s after before) in
    let claims : verify python signer later e wanted ≡ verify_claims signer later e wanted =
      rw (is) (verify_issued python signer r purpose ttl' now later nonce s wanted ascii signs) in
    let read = verify_string-to_string python e reads signer later wanted in
    let same = verify_claims_iff signer later e wanted e in
    (
      λ h. (same.0 (sym claims ∙ (sym read ∙ h))).1,
      λ fit. read ∙ (claims ∙ same.1 (live, fit, refl)),
    )
