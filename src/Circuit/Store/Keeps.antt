-- ===== src/Circuit/Store/Keeps.antt =====
-- What the system calls of the circuit keep of its files (provider_circuit.py under
-- workers/src/zippy_workers).
use new_logistic.Prelude.{◌≡◌, refl, String, Bool, true, false, none, some, ◌||◌, string_eq, arith}
use new_logistic.Circuit.Store.{
  CircuitError, Store, Name, active, releasing, opened, Result, ok, err, System, State, Run, ◌>>=◌,
  ◌>>◌, require, put, is_there, call, check_private, exists, create, write, open_file, read, unlink,
}

-- Whatever the calls answer, `P` of the files stays.
pub record Keeps {A : Type 0} (P : Store → Bool) (m : Run A) : Type 0 where
  pub keeps : (s : State) → P s.files ≡ true → P (m s).1.files ≡ true

pub bind-Keeps :
    {A B : Type 0} (P : Store → Bool) (m : Run A) (f : A → Run B)
    → Keeps P m
    → ((a : A) → Keeps P (f a))
    → Keeps P (m >>= f)
bind-Keeps {A = A} P m f first second = record { keeps = λ s h. go s (m s) refl (first.keeps s h) }
  where
    go :
        (s : State) (x : Result A × State)
        → m s ≡ x
        → P (m s).1.files ≡ true
        → P ((m >>= f) s).1.files ≡ true
    go s (ok a, s') at h = ground (arith, (second a).keeps s')
    go s (err e, s') at h = ground (arith)

pub then-Keeps :
    {B : Type 0} (P : Store → Bool) (m : Run (Unit {0})) (k : Run B)
    → Keeps P m
    → Keeps P k
    → Keeps P (m >> k)
then-Keeps P m k first second = bind-Keeps P m (λ _. k) first (λ _. second)

-- A file that appears, or whose text changes, does not harm `P`.
pub record IsMonotone (P : Store → Bool) : Type 0 where
  pub grows :
      (name : Name) (text : String) (files : Store)
      → P files ≡ true
      → P (put name (some text) files) ≡ true

put-grows :
    (name other : Name) (text : String) (files : Store)
    → is_there name files ≡ true
    → is_there name (put other (some text) files) ≡ true
put-grows active active text files h = refl
put-grows active releasing text files h = h
put-grows active opened text files h = h
put-grows releasing active text files h = h
put-grows releasing releasing text files h = refl
put-grows releasing opened text files h = h
put-grows opened active text files h = h
put-grows opened releasing text files h = h
put-grows opened opened text files h = refl

pub is_there-IsMonotone : (name : Name) → IsMonotone (is_there name)
is_there-IsMonotone name = record { grows = put-grows name }

-- The circuit grants nothing: it is open, releasing or in use.
abbrev pub is_blocked : Store → Bool
is_blocked files = is_there opened files || is_there releasing files || is_there active files

pub is_blocked-IsMonotone : IsMonotone is_blocked
is_blocked-IsMonotone = record {
  grows = λ name text files h. ground (
    arith,
    put-grows opened name text files,
    put-grows releasing name text files,
    put-grows active name text files,
  );
}

pub require-Keeps : (P : Store → Bool) (b : Bool) (e : CircuitError) → Keeps P (require b e)
require-Keeps P true e = record { keeps = λ s h. h }
require-Keeps P false e = record { keeps = λ s h. h }

module _ (system : System) (P : Store → Bool) where
  pub call-Keeps : Keeps P (call system)
  unfolding call
  call-Keeps = record { keeps = λ s h. ground (arith) }

  pub check_private-Keeps : Keeps P (check_private system)
  unfolding check_private
  check_private-Keeps = record { keeps = λ s h. ground (arith) }

  pub exists-Keeps : (name : Name) → Keeps P (exists system name)
  unfolding exists
  exists-Keeps name = record { keeps = λ s h. ground (arith) }

  pub open_file-Keeps : (name : Name) → Keeps P (open_file system name)
  unfolding open_file
  open_file-Keeps name = record { keeps = λ s h. ground (arith) }

  pub read-Keeps : (name : Name) → Keeps P (read system name)
  unfolding read
  read-Keeps name = record { keeps = λ s h. ground (arith) }

  pub create-Keeps : IsMonotone P → (name : Name) → Keeps P (create system name)
  unfolding create
  create-Keeps m name = record { keeps = λ s h. ground (arith, m.grows name "" s.files h) }

  pub write-Keeps : IsMonotone P → (name : Name) (text : String) → Keeps P (write system name text)
  unfolding write
  write-Keeps m name text = record {
    keeps = λ s h. ground (arith, m.grows name (system.written s.step text) s.files h);
  }

module _ (system : System) where
  pub create_there :
      (name : Name) (s : State) (a : Unit {0})
      → (create system name s).0 ≡ ok a
      → is_there name (create system name s).1.files ≡ true
  unfolding create
  create_there active s a e = ground (arith)
  create_there releasing s a e = ground (arith)
  create_there opened s a e = ground (arith)

  -- Only the removed file goes.
  pub unlink-Keeps :
      (name other : Name)
      → ((files : Store) → is_there name (put other none files) ≡ is_there name files)
      → Keeps (is_there name) (unlink system other)
  unfolding unlink
  unlink-Keeps name other same = record { keeps = λ s h. ground (arith, same s.files) }

  -- A removal that fails removes nothing.
  pub unlink_failed :
      (name other : Name) (s : State) (e : CircuitError)
      → is_there other s.files ≡ true
      → (unlink system name s).0 ≡ err e
      → is_there other (unlink system name s).1.files ≡ true
  unfolding unlink
  unlink_failed name other s e h failed = ground (arith)

  pub exists_ok :
      (name : Name) (s : State) (b : Bool)
      → (exists system name s).0 ≡ ok b
      → (b ≡ is_there name s.files) × ((exists system name s).1.files ≡ s.files)
  unfolding exists
  exists_ok name s b e = (ground (arith), ground (arith))
