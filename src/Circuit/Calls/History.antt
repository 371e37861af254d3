-- ===== src/Circuit/Calls/History.antt =====
-- Whole histories of the circuit's calls (provider_circuit.py under workers/src/zippy_workers).
use new_logistic.Prelude.{
  ◌≡◌, refl, String, Bool, true, false, Option, none, some, List, [], ◌∷◌, ◌||◌, string_eq, arith,
  Bool-cases, inl, inr,
}
use new_logistic.Circuit.Store.{Store, opened, Result, ok, err, System, State, is_there}
use new_logistic.Circuit.Store.Keeps.{is_there-IsMonotone, is_blocked, is_blocked-IsMonotone}
use new_logistic.Circuit.Calls.{CircuitFailure, reserve, finish}
use new_logistic.Circuit.Calls.Refusal.{
  is_ok, reserve_refused, reserve-Leaves, finish-Keeps, finish-Leaves,
}
use new_logistic.Circuit.Calls.Latch.{reserve-Keeps, finish_failure-Keeps, finish_success-Fails}

-- A call of the circuit, with how the system answers during it.
pub data Op : Type 0 where
  reserves : System → String → Op
  finishes : System → String → Option CircuitFailure → Op

-- What a call leaves; the next one counts its system calls anew.
abbrev pub run : Op → Store → Store
run (reserves system token) files =
    (reserve system token (record { files = files; step = 0 })).1.files
run (finishes system token failure) files =
    (finish system token failure (record { files = files; step = 0 })).1.files

abbrev pub run_all : List Op → Store → Store
run_all [] files = files
run_all (op ∷ ops) files = run_all ops (run op files)

-- The call is a finish without a failure, and it succeeds.
abbrev pub releases : Op → Store → Bool
releases (reserves system token) files = false
releases (finishes system token none) files =
    is_ok (finish system token none (record { files = files; step = 0 })).0
releases (finishes system token (some failure)) files = false

-- One of the calls releases the circuit.
abbrev pub is_released : List Op → Store → Bool
is_released [] files = false
is_released (op ∷ ops) files = releases op files || is_released ops (run op files)

run-is_blocked :
    (op : Op) (files : Store)
    → releases op files ≡ false
    → is_blocked files ≡ true
    → is_blocked (run op files) ≡ true
run-is_blocked (reserves system token) files kept h =
    (reserve-Keeps system is_blocked is_blocked-IsMonotone token).keeps
      (record { files = files; step = 0 }) h
run-is_blocked (finishes system token (some failure)) files kept h =
    (finish_failure-Keeps system token failure).keeps (record { files = files; step = 0 }) h
run-is_blocked (finishes system token none) files kept h =
    go (finish system token none (record { files = files; step = 0 })) refl
  where
    go :
        (x : Result (Unit {0}) × State)
        → finish system token none (record { files = files; step = 0 }) ≡ x
        → is_blocked (run (finishes system token none) files) ≡ true
    go (ok a, s) at = absurd (ground (arith))
    go (err e, s) at =
        (finish_success-Fails system token).fails (record { files = files; step = 0 }) e h
          (ground (arith))

run_all-is_blocked :
    (ops : List Op) (files : Store)
    → is_released ops files ≡ false
    → is_blocked files ≡ true
    → is_blocked (run_all ops files) ≡ true
run_all-is_blocked [] files kept h = h
run_all-is_blocked (op ∷ ops) files kept h =
    run_all-is_blocked ops (run op files) (ground (arith, Bool-cases (releases op files)))
      (run-is_blocked op files (ground (arith, Bool-cases (releases op files))) h)

-- The files and the count of a call that begins.
abbrev pub begin : Store → State
begin files = record { files = files; step = 0 }

-- A request is granted, calls follow, and another request is granted. Then one of the calls between
-- was a finish without a failure that succeeded, however the system calls answered.
pub reserve-reserve_released :
    (system : System) (token t : String) (files : Store)
    → (ops : List Op) (system' : System) (token' t' : String)
    → (reserve system token (begin files)).0 ≡ ok t
    → (reserve system' token' (begin (run_all ops (run (reserves system token) files)))).0 ≡ ok t'
    → is_released ops (run (reserves system token) files) ≡ true
reserve-reserve_released system token t files ops system' token' t' granted again =
    let mid = run (reserves system token) files in
    let there = (reserve-Leaves system token).leaves (begin files) t granted in
    elim (Bool-cases (is_released ops mid)) [
      | inl released ↦ released
      | inr kept ↦
          let blocked = run_all-is_blocked ops mid kept (ground (arith, there)) in
          absurd (
            ground (arith, again, reserve_refused system' token' (begin (run_all ops mid)) blocked))
    ]

run_all-opened :
    (ops : List Op) (files : Store)
    → is_there opened files ≡ true
    → is_there opened (run_all ops files) ≡ true
run_all-opened [] files h = h
run_all-opened (reserves system token ∷ ops) files h =
    run_all-opened ops (run (reserves system token) files) (
      (reserve-Keeps system (is_there opened) (is_there-IsMonotone opened) token).keeps
        (begin files) h)
run_all-opened (finishes system token failure ∷ ops) files h =
    run_all-opened ops (run (finishes system token failure) files)
      ((finish-Keeps system token failure).keeps (begin files) h)

-- Once a request was finished with a failure, no request is granted again, whatever calls follow and
-- however the system calls answer.
pub finish-reserve_latched :
    (system : System) (token : String) (failure : CircuitFailure) (files : Store)
    → (ops : List Op) (system' : System) (token' : String)
    → (finish system token (some failure) (begin files)).0 ≡ ok tt
    → is_ok
        (reserve system' token'
          (begin (run_all ops (run (finishes system token (some failure)) files)))).0
      ≡ false
finish-reserve_latched system token failure files ops system' token' done =
    let mid = run (finishes system token (some failure)) files in
    let there = (finish-Leaves system token failure).leaves (begin files) tt done in
    reserve_refused system' token' (begin (run_all ops mid))
      (ground (arith, run_all-opened ops mid there))
