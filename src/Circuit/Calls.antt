-- ===== src/Circuit/Calls.antt =====
-- The circuit's calls (provider_circuit.py under workers/src/zippy_workers).
pub mod Latch
pub mod Refusal
pub mod History
pub mod Healthy
use new_logistic.Prelude.{
  ℕ, String, Bool, true, false, Option, none, some, ◌&&◌, ◌||◌, not, ◌==◌, string_eq, nat_eq,
  if◌then◌else◌, List, [], ◌∷◌, leb, length,
}
use new_logistic.Prelude.Text.{codes}
use new_logistic.Circuit.Store.{
  CircuitError, circuit_open, release_unverified, busy_or_abandoned, invalid_outcome,
  permit_mismatch, fallback_not_authorized, store_unavailable, Store, active, releasing, opened,
  Name, Result, ok, err, System, State, Run, pure, reject, ◌>>=◌, ◌>>◌, require, call,
  check_private, exists, create, write, open_file, read, unlink,
}

pub data CircuitFailure : Type 0 where
  unavailable timeout rate_limited safety : CircuitFailure

abbrev pub failure_value : CircuitFailure → String
failure_value unavailable = "unavailable"
failure_value timeout = "timeout"
failure_value rate_limited = "rate-limited"
failure_value safety = "safety"

-- `[0-9a-f]`
abbrev pub is_hex : ℕ → Bool
is_hex c = leb 48 c && leb c 57 || leb 97 c && leb c 102

abbrev pub all_hex : List ℕ → Bool
all_hex [] = true
all_hex (c ∷ cs) = is_hex c && all_hex cs

-- `re.fullmatch(r"[0-9a-f]{32}", token)`
abbrev pub is_token : String → Bool
is_token token = length (codes token) == 32 && all_hex (codes token)

module _ (system : System) where
  -- `_locked`, up to its `yield`
  unfoldable pub locked : Run (Unit {0})
  locked = do call system; check_private system; call system; check_private system; call system

  -- A new file with a text, made durable with its directory.
  unfoldable pub persist : Name → String → Run (Unit {0})
  persist name text = do
    create system name
    check_private system
    write system name text
    call system
    call system

  -- `if self._exists(...): raise`
  unfoldable pub deny : Name → CircuitError → Run (Unit {0})
  deny name code = do found ← exists system name; require (not found) code

  -- `reserve`, with the token that `uuid4` gives.
  unfoldable pub reserve : String → Run String
  reserve token = do
    locked
    deny opened circuit_open
    deny releasing release_unverified
    deny active busy_or_abandoned
    persist active token
    pure token

  -- The check of the permit against the reservation.
  unfoldable pub check_permit : String → Run (Unit {0})
  check_permit token = do
    locked
    open_file system active
    check_private system
    held ← read system active
    require (held == token) permit_mismatch

  -- The guard or the latch, written before the reservation is removed.
  unfoldable pub mark : String → Option CircuitFailure → Run (Unit {0})
  mark token none = persist releasing token
  mark token (some failure) = persist opened (failure_value failure)

  -- The removal of the reservation, and of the guard after a success.
  unfoldable pub release : Option CircuitFailure → Run (Unit {0})
  release none = do unlink system active; call system; unlink system releasing
  release (some failure) = do unlink system active; call system

  -- `finish`, with the permit's token
  unfoldable pub finish : String → Option CircuitFailure → Run (Unit {0})
  finish token failure = do
    require (is_token token) invalid_outcome
    check_permit token
    mark token failure
    release failure

-- `assert_fallback_authorized`
pub assert_fallback_authorized : Run (Unit {0})
assert_fallback_authorized = reject fallback_not_authorized
