-- ===== src/Governance.antt =====
-- The governance boundary of the API (api/services/paperclip*.py, api/repositories_paperclip.py,
-- api/services/synthetic_executor.py): ids, and what the code takes from Python's library.
pub mod Envelope
pub mod Signer
pub mod Calls
pub mod Repository
pub mod Payload
pub mod Executor
pub mod Service
pub mod Methods
pub mod Authority
mod Tests
use new_logistic.Prelude.{
  ℕ, String, Option, List, ◌≡◌, ◌↔◌, ◌==◌, Bool, true, ap, Eq, string_eq, eq_iff,
}
use new_logistic.Prelude.Json.{Json, Fields}
use new_logistic.Prelude.Int.{ℤ}

-- A `uuid.UUID`, by its canonical text `str(u)`.
pub record Uuid : Type 0 where
  pub text : String

abbrev of_text : String → Uuid
of_text t = record { text = t }

pub Uuid-eq_iff : (u v : Uuid) → ((u.text == v.text) ≡ true) ↔ (u ≡ v)
Uuid-eq_iff u v = (
  λ h. ap of_text ((eq_iff u.text v.text).0 h),
  λ e. (eq_iff u.text v.text).1 (ap (λ w. w.text) e),
)

instance abbrev pub uuid_eq : Eq Uuid
uuid_eq = record { decides = Uuid-eq_iff; agree = λ u v. u.text == v.text }

-- Python's library: `uuid` is `UUID(text)`, `int_of_float` and `int_of_text` are `int(...)`,
-- `canonical` the UTF-8 bytes of `json.dumps` with `ensure_ascii=False`, which a lone surrogate
-- does not have, `dumps` those of the escaped text, `loads` is `json.loads` of decoded bytes, `mac`
-- the HMAC-SHA256 of a key and a text, `encode` and `decode` are those of URL-safe
-- Base64. `sha256` is the hexadecimal digest of a text, `quote` and `show` are `json.dumps` of a text
-- and of a number, and `decimal` formats a float, which fails where that is not finite.
pub record Library : Type 0 where
  pub uuid : String → Option Uuid
  pub int_of_float : String → Option ℤ
  pub int_of_text : String → Option ℤ
  pub canonical : Fields → Option (List ℕ)
  pub dumps : Fields → List ℕ
  pub loads : List ℕ → Option Json
  pub mac : List ℕ → List ℕ → List ℕ
  pub encode : List ℕ → String
  pub decode : String → Option (List ℕ)
  pub sha256 : String → String
  pub quote : String → String
  pub show : ℕ → String
  pub decimal : String → Option String
