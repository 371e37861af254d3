-- ===== src/Circuit/Calls/Latch.antt =====
-- When the circuit grants a request (provider_circuit.py under workers/src/zippy_workers).
use new_logistic.Prelude.{
  ◌≡◌, refl, String, Bool, true, Option, none, some, not, ◌==◌, string_eq, arith,
}
use new_logistic.Circuit.Store.{
  CircuitError, circuit_open, release_unverified, busy_or_abandoned, invalid_outcome,
  permit_mismatch, Store, Name, active, releasing, opened, Result, ok, err, System, State, Run,
  pure, ◌>>◌, require, is_there, call, exists, create, unlink,
}
use new_logistic.Circuit.Store.Keeps.{
  Keeps, bind-Keeps, then-Keeps, IsMonotone, is_there-IsMonotone, is_blocked, is_blocked-IsMonotone,
  require-Keeps, call-Keeps, check_private-Keeps, exists-Keeps, open_file-Keeps, read-Keeps,
  create-Keeps, write-Keeps, create_there, unlink-Keeps, unlink_failed,
}
use new_logistic.Circuit.Calls.{
  CircuitFailure, failure_value, is_token, locked, persist, deny, reserve, check_permit, mark,
  release, finish,
}

pub pure-Keeps : {A : Type 0} (P : Store → Bool) (a : A) → Keeps P (pure a)
pure-Keeps P a = record { keeps = λ s h. h }

module _ (system : System) (P : Store → Bool) where
  pub locked-Keeps : Keeps P (locked system)
  unfolding locked
  locked-Keeps =
      let c = call-Keeps system P in
      let p = check_private-Keeps system P in
      then-Keeps P _ _ c (then-Keeps P _ _ p (then-Keeps P _ _ c (then-Keeps P _ _ p c)))

  pub deny-Keeps : (name : Name) (code : CircuitError) → Keeps P (deny system name code)
  unfolding deny
  deny-Keeps name code =
      bind-Keeps P (exists system name) (λ found. require (not found) code)
        (exists-Keeps system P name) (λ found. require-Keeps P (not found) code)

  module _ (m : IsMonotone P) where
    pub persist-Keeps : (name : Name) (text : String) → Keeps P (persist system name text)
    unfolding persist
    persist-Keeps name text =
        let c = call-Keeps system P in
        then-Keeps P _ _ (create-Keeps system P m name) (
          then-Keeps P _ _ (check_private-Keeps system P)
            (then-Keeps P _ _ (write-Keeps system P m name text) (then-Keeps P _ _ c c)))

    pub reserve-Keeps : (token : String) → Keeps P (reserve system token)
    unfolding reserve
    reserve-Keeps token = then-Keeps P _ _ locked-Keeps (
        then-Keeps P _ _ (deny-Keeps opened circuit_open) (
          then-Keeps P _ _ (deny-Keeps releasing release_unverified) (
            then-Keeps P _ _ (deny-Keeps active busy_or_abandoned)
              (then-Keeps P _ _ (persist-Keeps active token) (pure-Keeps P token)))))

    pub check_permit-Keeps : (token : String) → Keeps P (check_permit system token)
    unfolding check_permit
    check_permit-Keeps token = then-Keeps P _ _ locked-Keeps (
        then-Keeps P _ _ (open_file-Keeps system P active) (
          then-Keeps P _ _ (check_private-Keeps system P) (
            bind-Keeps P _ _ (read-Keeps system P active)
              (λ held. require-Keeps P (held == token) permit_mismatch))))

    pub mark-Keeps :
        (token : String) (failure : Option CircuitFailure) → Keeps P (mark system token failure)
    unfolding mark
    mark-Keeps token none = persist-Keeps releasing token
    mark-Keeps token (some failure) = persist-Keeps opened (failure_value failure)

-- The marker that a finish leaves.
abbrev pub marker : Option CircuitFailure → Name
marker none = releasing
marker (some failure) = opened

-- A run that succeeds leaves `P`.
pub record Leaves {A : Type 0} (m : Run A) (P : Store → Bool) : Type 0 where
  pub leaves : (s : State) (a : A) → (m s).0 ≡ ok a → P (m s).1.files ≡ true

pub then-Leaves :
    {B : Type 0} (P : Store → Bool) (m : Run (Unit {0})) (k : Run B)
    → Leaves m P
    → Keeps P k
    → Leaves (m >> k) P
then-Leaves P m k first second = record { leaves = λ s b e. go s b (m s) refl e }
  where
    go :
        (s : State) (b : _) (x : Result (Unit {0}) × State)
        → m s ≡ x
        → ((m >> k) s).0 ≡ ok b
        → P ((m >> k) s).1.files ≡ true
    go s b (ok a, s') at e = ground (arith, second.keeps s', first.leaves s a)
    go s b (err code, s') at e = absurd (ground (arith))

module _ (system : System) where
  create-Leaves : (name : Name) → Leaves (create system name) (is_there name)
  create-Leaves name = record { leaves = λ s a e. create_there system name s a e }

  pub persist-Leaves :
      (name : Name) (text : String) → Leaves (persist system name text) (is_there name)
  unfolding persist
  persist-Leaves name text =
      let P = is_there name in
      let c = call-Keeps system P in
      then-Leaves P _ _ (create-Leaves name) (
        then-Keeps P _ _ (check_private-Keeps system P) (
          then-Keeps P _ _ (write-Keeps system P (is_there-IsMonotone name) name text)
            (then-Keeps P _ _ c c)))

  pub mark-Leaves :
      (token : String) (failure : Option CircuitFailure)
      → Leaves (mark system token failure) (is_there (marker failure))
  unfolding mark
  mark-Leaves token none = persist-Leaves releasing token
  mark-Leaves token (some failure) = persist-Leaves opened (failure_value failure)

-- A run that fails keeps `P`.
pub record Fails {A : Type 0} (P : Store → Bool) (m : Run A) : Type 0 where
  pub fails :
      (s : State) (e : CircuitError) → P s.files ≡ true → (m s).0 ≡ err e → P (m s).1.files ≡ true

then-Fails :
    {B : Type 0} (P : Store → Bool) (m : Run (Unit {0})) (k : Run B)
    → Keeps P m
    → Fails P k
    → Fails P (m >> k)
then-Fails P m k first second = record { fails = λ s e h failed. go s e h (m s) refl failed }
  where
    go :
        (s : State) (e : CircuitError)
        → P s.files ≡ true
        → (x : Result (Unit {0}) × State) → m s ≡ x
        → ((m >> k) s).0 ≡ err e
        → P ((m >> k) s).1.files ≡ true
    go s e h (ok a, s') at failed = ground (arith, first.keeps s h, second.fails s' e)
    go s e h (err code, s') at failed = ground (arith, first.keeps s h)

module _ {B : Type 0} (P R : Store → Bool) (m : Run (Unit {0})) (k : Run B) (first : Keeps P m)
    (leaves : Leaves m R) (implies : (files : Store) → R files ≡ true → P files ≡ true) where
  -- `m` leaves `R` if it succeeds, and what follows keeps that.
  guarded-Keeps : Keeps R k → Keeps P (m >> k)
  guarded-Keeps second = record { keeps = λ s h. go s h (m s) refl }
    where
      go :
          (s : State)
          → P s.files ≡ true
          → (x : Result (Unit {0}) × State) → m s ≡ x
          → P ((m >> k) s).1.files ≡ true
      go s h (ok a, s') at =
          ground (arith, leaves.leaves s a, second.keeps s', implies (k s').1.files)
      go s h (err code, s') at = ground (arith, first.keeps s h)

  guarded-Fails : Fails R k → Fails P (m >> k)
  guarded-Fails second = record { fails = λ s e h failed. go s e h (m s) refl failed }
    where
      go :
          (s : State) (e : CircuitError)
          → P s.files ≡ true
          → (x : Result (Unit {0}) × State) → m s ≡ x
          → ((m >> k) s).0 ≡ err e
          → P ((m >> k) s).1.files ≡ true
      go s e h (ok a, s') at failed =
          ground (arith, leaves.leaves s a, second.fails s' e, implies (k s').1.files)
      go s e h (err code, s') at failed = ground (arith, first.keeps s h)

module _ (system : System) where
  pub release_failure-Keeps :
      (failure : CircuitFailure) → Keeps (is_there opened) (release system (some failure))
  unfolding release
  release_failure-Keeps failure =
      then-Keeps (is_there opened) _ _ (unlink-Keeps system opened active (λ files. refl))
        (call-Keeps system (is_there opened))

  release_success-Fails : Fails (is_there releasing) (release system none)
  unfolding release
  release_success-Fails =
      then-Fails (is_there releasing) _ _ (unlink-Keeps system releasing active (λ files. refl)) (
        then-Fails (is_there releasing) (call system) (unlink system releasing)
          (call-Keeps system (is_there releasing))
          (record {
            fails = λ s e h failed. unlink_failed system releasing releasing s e h failed;
          }))

  -- A finish with a failure, however it ends, keeps the circuit blocked.
  pub finish_failure-Keeps :
      (token : String) (failure : CircuitFailure)
      → Keeps is_blocked (finish system token (some failure))
  unfolding finish
  finish_failure-Keeps token failure =
      then-Keeps is_blocked _ _ (require-Keeps is_blocked (is_token token) invalid_outcome) (
        then-Keeps is_blocked _ _ (check_permit-Keeps system is_blocked is_blocked-IsMonotone token)
          (guarded-Keeps is_blocked (is_there opened) _ _
            (mark-Keeps system is_blocked is_blocked-IsMonotone token (some failure))
            (mark-Leaves system token (some failure)) (λ files h. ground (arith))
            (release_failure-Keeps failure)))

  -- A finish that does not succeed keeps the circuit blocked.
  pub finish_success-Fails : (token : String) → Fails is_blocked (finish system token none)
  unfolding finish
  finish_success-Fails token =
      then-Fails is_blocked _ _ (require-Keeps is_blocked (is_token token) invalid_outcome) (
        then-Fails is_blocked _ _ (check_permit-Keeps system is_blocked is_blocked-IsMonotone token)
          (guarded-Fails is_blocked (is_there releasing) _ _
            (mark-Keeps system is_blocked is_blocked-IsMonotone token none)
            (mark-Leaves system token none) (λ files h. ground (arith)) release_success-Fails))
