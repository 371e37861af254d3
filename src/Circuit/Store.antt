-- ===== src/Circuit/Store.antt =====
-- The files of the circuit and the system calls on them (provider_circuit.py under
-- workers/src/zippy_workers).
pub mod Keeps
use new_logistic.Prelude.{
  ℕ, suc, String, Bool, true, false, Option, none, some, ◌||◌, not, ◌==◌, string_eq, if◌then◌else◌,
}

pub data CircuitError : Type 0 where
  store_unsafe store_unavailable circuit_open release_unverified busy_or_abandoned : CircuitError
  invalid_outcome permit_mismatch fallback_not_authorized : CircuitError

-- The three files, with their contents.
pub record Store : Type 0 where
  pub active : Option String
  pub releasing : Option String
  pub opened : Option String

pub data Name : Type 0 where
  active releasing opened : Name

pub data Result {ℓ} (A : Type ℓ) : Type ℓ where
  ok : A → Result A
  err : CircuitError → Result A

-- How the system answers in one call of the circuit: whether the n-th system call raises OSError,
-- whether the file that the n-th reads the mode of is private, and what the n-th leaves of a text
-- that is written.
pub record System : Type 0 where
  pub fails : ℕ → Bool
  pub is_private : ℕ → Bool
  pub written : ℕ → String → String

-- The files and the number of system calls made. An exception undoes nothing.
pub record State : Type 0 where
  pub files : Store
  pub step : ℕ

abbrev pub Run : Type 0 → Type 0
Run A = State → Result A × State

abbrev pub pure : {A : Type 0} → A → Run A
pure a s = (ok a, s)

abbrev pub reject : {A : Type 0} → CircuitError → Run A
reject e s = (err e, s)

infixl 5 ◌>>=◌ ◌>>◌
abbrev pub ◌>>=◌ : {A B : Type 0} → Run A → (A → Run B) → Run B
◌>>=◌ m f s = let (r, s') = m s in elim r [ ok a ↦ f a s' | err e ↦ (err e, s') ]

abbrev pub ◌>>◌ : {B : Type 0} → Run (Unit {0}) → Run B → Run B
m >> k = m >>= λ _. k

abbrev pub require : Bool → CircuitError → Run (Unit {0})
require true e s = (ok tt, s)
require false e s = (err e, s)

abbrev pub content : Name → Store → Option String
content active files = files.active
content releasing files = files.releasing
content opened files = files.opened

abbrev pub put : Name → Option String → Store → Store
put active text files = record files { active = text }
put releasing text files = record files { releasing = text }
put opened text files = record files { opened = text }

abbrev pub is_there : Name → Store → Bool
is_there name files = elim (content name files) [ none ↦ false | some text ↦ true ]

abbrev pub next : State → State
next s = record s { step = suc s.step }

module _ (system : System) where
  -- A system call that changes no file: fsync, flock, the opening of the directory and of the lock.
  unfoldable pub call : Run (Unit {0})
  call s = if system.fails s.step then (err store_unavailable, next s) else (ok tt, next s)

  -- `_private_file`, and the check of the directory.
  unfoldable pub check_private : Run (Unit {0})
  check_private s =
      if system.fails s.step
      then (err store_unavailable, next s)
      else if system.is_private s.step
      then (ok tt, next s)
      else (err store_unsafe, next s)

  -- `_exists`
  unfoldable pub exists : Name → Run Bool
  exists name s =
      if system.fails s.step
      then (err store_unavailable, next s)
      else (ok (is_there name s.files), next s)

  -- `os.open` with O_CREAT and O_EXCL
  unfoldable pub create : Name → Run (Unit {0})
  create name s =
      if system.fails s.step || is_there name s.files
      then (err store_unavailable, next s)
      else (ok tt, next (record s { files = put name (some "") s.files }))

  -- `os.write`, and that all was written.
  unfoldable pub write : Name → String → Run (Unit {0})
  write name text s =
      let left = system.written s.step text in
      let s' = next (record s { files = put name (some left) s.files }) in
      if system.fails s.step || not (left == text) then (err store_unavailable, s') else (ok tt, s')

  -- `os.open` of a file that is there, to read it
  unfoldable pub open_file : Name → Run (Unit {0})
  open_file name s =
      if system.fails s.step || not (is_there name s.files)
      then (err store_unavailable, next s)
      else (ok tt, next s)

  -- `os.read`
  unfoldable pub read : Name → Run String
  read name s =
      if system.fails s.step
      then (err store_unavailable, next s)
      else (ok (elim (content name s.files) [ none ↦ "" | some text ↦ text ]), next s)

  -- `os.unlink`
  unfoldable pub unlink : Name → Run (Unit {0})
  unlink name s =
      if system.fails s.step || not (is_there name s.files)
      then (err store_unavailable, next s)
      else (ok tt, next (record s { files = put name none s.files }))
