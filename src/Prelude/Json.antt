-- ===== src/Prelude/Json.antt =====
-- The values that `json.loads` makes, and what the Python code asks of them.
use Prim.Native.Nat.{ℕ}
use Prim.Native.String.{String}
use mathlib.Core.Bool.{Bool, true, false, not, ◌||◌}
use mathlib.Core.Option.{Option, none, some}
use new_logistic.Prelude.Tests.{◌==◌, nat_eq, string_eq, if◌then◌else◌}

-- An integer is its sign and its size, `minus n` being -(n + 1); a float is its text.
mutual
  pub data Json : Type 0 where
    null : Json
    bool : Bool → Json
    int : ℕ → Json
    minus : ℕ → Json
    float : String → Json
    str : String → Json
    arr : Items → Json
    obj : Fields → Json

  pub data Items : Type 0 where
    nil : Items
    cons : Json → Items → Items

  -- A dict in the order of its keys.
  pub data Fields : Type 0 where
    end : Fields
    field : String → Json → Fields → Fields

-- `d.get(k)`; a key stands once.
unfoldable pub get? : String → Fields → Option Json
get? k end = none
get? k (field j v fields) = if j == k then some v else get? k fields

-- `d.get(k, default)`
unfoldable pub get_or : String → Json → Fields → Json
unfolding get?
get_or k d fields = elim (get? k fields) [ none ↦ d | some v ↦ v ]

-- `d.get(k)`, where `None` and a missing key are not told apart.
unfoldable pub get : String → Fields → Json
unfolding get_or
get k fields = get_or k null fields

-- `bool(v)`
unfoldable pub truthy : Json → Bool
truthy null = false
truthy (bool b) = b
truthy (int n) = not (n == 0)
truthy (minus n) = true
truthy (float t) = not (t == "0.0" || t == "-0.0")
truthy (str s) = not (s == "")
truthy (arr nil) = false
truthy (arr (cons x xs)) = true
truthy (obj end) = false
truthy (obj (field k v fields)) = true

-- `v or d`
abbrev pub or_else : Json → Json → Json
or_else v d = if truthy v then v else d

-- `v == s` for a text `s`
abbrev pub is_str : String → Json → Bool
is_str s (str t) = t == s
is_str s _ = false

abbrev pub is_null : Json → Bool
is_null null = true
is_null _ = false

-- `x if isinstance(x, dict) else {}`
abbrev pub fields_of : Json → Fields
fields_of (obj fields) = fields
fields_of _ = end

-- `x if isinstance(x, str) else None`
abbrev pub text? : Json → Option String
text? (str s) = some s
text? _ = none
