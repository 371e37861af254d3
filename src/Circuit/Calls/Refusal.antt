-- ===== src/Circuit/Calls/Refusal.antt =====
-- A circuit that is blocked refuses a request, and one that is open stays so (provider_circuit.py
-- under workers/src/zippy_workers).
use new_logistic.Prelude.{
  ◌≡◌, refl, String, Bool, true, false, Option, none, some, arith, Bool-cases, inl, inr, string_eq,
}
use new_logistic.Circuit.Store.{
  CircuitError, circuit_open, release_unverified, busy_or_abandoned, invalid_outcome, Store, Name,
  active, releasing, opened, Result, ok, err, System, State, Run, pure, ◌>>=◌, ◌>>◌, require,
  is_there, exists, call, unlink,
}
use new_logistic.Circuit.Store.Keeps.{
  Keeps, then-Keeps, require-Keeps, is_there-IsMonotone, is_blocked, exists_ok, call-Keeps,
  unlink-Keeps,
}
use new_logistic.Circuit.Calls.{
  CircuitFailure, is_token, reserve, deny, finish, locked, persist, check_permit, mark, release,
}
use new_logistic.Circuit.Calls.Latch.{
  Leaves, then-Leaves, locked-Keeps, deny-Keeps, persist-Leaves, pure-Keeps, check_permit-Keeps,
  mark-Keeps, mark-Leaves, release_failure-Keeps,
}

abbrev pub is_ok : {A : Type 0} → Result A → Bool
is_ok (ok a) = true
is_ok (err e) = false

-- Where `P` holds, the run fails.
record Refuses {A : Type 0} (P : Store → Bool) (m : Run A) : Type 0 where
  refuses : (s : State) → P s.files ≡ true → is_ok (m s).0 ≡ false

bind-Refuses :
    {A B : Type 0} (P : Store → Bool) (m : Run A) (f : A → Run B)
    → Keeps P m
    → ((a : A) → Refuses P (f a))
    → Refuses P (m >>= f)
bind-Refuses {A = A} P m f first second = record { refuses = λ s h. go s h (m s) refl }
  where
    go :
        (s : State)
        → P s.files ≡ true
        → (x : Result A × State) → m s ≡ x
        → is_ok ((m >>= f) s).0 ≡ false
    go s h (ok a, s') at = ground (arith, first.keeps s h, (second a).refuses s')
    go s h (err e, s') at = ground (arith)

then-Refuses :
    {B : Type 0} (P : Store → Bool) (m : Run (Unit {0})) (k : Run B)
    → Keeps P m
    → Refuses P k
    → Refuses P (m >> k)
then-Refuses P m k first second = bind-Refuses P m (λ _. k) first (λ _. second)

bind-Leaves :
    {A B : Type 0} (P : Store → Bool) (m : Run A) (f : A → Run B)
    → ((a : A) → Leaves (f a) P)
    → Leaves (m >>= f) P
bind-Leaves {A = A} {B = B} P m f second = record { leaves = λ s b e. go s b (m s) refl e }
  where
    go :
        (s : State) (b : B) (x : Result A × State)
        → m s ≡ x
        → ((m >>= f) s).0 ≡ ok b
        → P ((m >>= f) s).1.files ≡ true
    go s b (ok a, s') at e = ground (arith, (second a).leaves s' b)
    go s b (err code, s') at e = absurd (ground (arith))

after-Leaves :
    {B : Type 0} (P : Store → Bool) (m : Run (Unit {0})) (k : Run B)
    → Leaves k P
    → Leaves (m >> k) P
after-Leaves P m k second = bind-Leaves P m (λ _. k) (λ _. second)

stop-Refuses :
    {B : Type 0} (P : Store → Bool) (m : Run (Unit {0})) (k : Run B)
    → Refuses P m
    → Refuses P (m >> k)
stop-Refuses P m k first = record { refuses = λ s h. go s h (m s) refl }
  where
    go :
        (s : State)
        → P s.files ≡ true
        → (x : Result (Unit {0}) × State) → m s ≡ x
        → is_ok ((m >> k) s).0 ≡ false
    go s h (ok a, s') at = absurd (ground (arith, first.refuses s h))
    go s h (err e, s') at = ground (arith)

module _ (system : System) where
  deny-Refuses :
      (name : Name) (code : CircuitError) → Refuses (is_there name) (deny system name code)
  unfolding deny
  deny-Refuses name code = record { refuses = λ s h. go s h (exists system name s) refl }
    where
      go :
          (s : State)
          → is_there name s.files ≡ true
          → (x : Result Bool × State) → exists system name s ≡ x
          → is_ok (deny system name code s).0 ≡ false
      go s h (ok true, s') at = ground (arith)
      go s h (ok false, s') at = absurd (ground (arith, exists_ok system name s false))
      go s h (err e, s') at = ground (arith)

  reserve-Refuses : (token : String) (name : Name) → Refuses (is_there name) (reserve system token)
  unfolding reserve
  reserve-Refuses token name =
      let P = is_there name in
      let takes = persist system active token >> pure token in
      let third = deny system active busy_or_abandoned >> takes in
      let second = deny system releasing release_unverified >> third in
      let first = deny system opened circuit_open >> second in
      then-Refuses P (locked system) first (locked-Keeps system P)
        (elim name as (λ name. Refuses (is_there name) first) [
          | opened ↦
              stop-Refuses (is_there opened) (deny system opened circuit_open) second
                (deny-Refuses opened circuit_open)
          | releasing ↦
              then-Refuses (is_there releasing) (deny system opened circuit_open) second
                (deny-Keeps system (is_there releasing) opened circuit_open)
                (stop-Refuses (is_there releasing) (deny system releasing release_unverified) third
                  (deny-Refuses releasing release_unverified))
          | active ↦
              then-Refuses (is_there active) (deny system opened circuit_open) second
                (deny-Keeps system (is_there active) opened circuit_open)
                (then-Refuses (is_there active) (deny system releasing release_unverified) third
                  (deny-Keeps system (is_there active) releasing release_unverified)
                  (stop-Refuses (is_there active) (deny system active busy_or_abandoned) takes
                    (deny-Refuses active busy_or_abandoned)))
        ])

  -- A blocked circuit grants nothing.
  pub reserve_refused :
      (token : String) (s : State)
      → is_blocked s.files ≡ true
      → is_ok (reserve system token s).0 ≡ false
  reserve_refused token s h = elim (Bool-cases (is_there opened s.files)) [
    | inl there ↦ (reserve-Refuses token opened).refuses s there
    | inr shut ↦ elim (Bool-cases (is_there releasing s.files)) [
      | inl there ↦ (reserve-Refuses token releasing).refuses s there
      | inr gone ↦ (reserve-Refuses token active).refuses s (ground (arith))
    ]
  ]

  -- A request that is granted leaves its reservation.
  pub reserve-Leaves : (token : String) → Leaves (reserve system token) (is_there active)
  unfolding reserve
  reserve-Leaves token =
      let P = is_there active in
      let takes = persist system active token >> pure token in
      let third = deny system active busy_or_abandoned >> takes in
      let second = deny system releasing release_unverified >> third in
      after-Leaves P (locked system) (deny system opened circuit_open >> second) (
        after-Leaves P (deny system opened circuit_open) second (
          after-Leaves P (deny system releasing release_unverified) third (
            after-Leaves P (deny system active busy_or_abandoned) takes (
              then-Leaves P (persist system active token) (pure token)
                (persist-Leaves system active token) (pure-Keeps P token)))))

  release-Keeps :
      (failure : Option CircuitFailure) → Keeps (is_there opened) (release system failure)
  unfolding release
  release-Keeps none =
      let P = is_there opened in
      then-Keeps P (unlink system active) _ (unlink-Keeps system opened active (λ files. refl)) (
        then-Keeps P (call system) (unlink system releasing) (call-Keeps system P)
          (unlink-Keeps system opened releasing (λ files. refl)))
  release-Keeps (some failure) = release_failure-Keeps system failure

  -- An open circuit stays open.
  pub finish-Keeps :
      (token : String) (failure : Option CircuitFailure)
      → Keeps (is_there opened) (finish system token failure)
  unfolding finish
  finish-Keeps token failure =
      let P = is_there opened in
      let m = is_there-IsMonotone opened in
      then-Keeps P _ _ (require-Keeps P (is_token token) invalid_outcome) (
        then-Keeps P _ _ (check_permit-Keeps system P m token)
          (then-Keeps P _ _ (mark-Keeps system P m token failure) (release-Keeps failure)))

  -- A finish with a failure opens the circuit.
  pub finish-Leaves :
      (token : String) (failure : CircuitFailure)
      → Leaves (finish system token (some failure)) (is_there opened)
  unfolding finish
  finish-Leaves token failure =
      let P = is_there opened in
      let marks = mark system token (some failure) >> release system (some failure) in
      after-Leaves P (require (is_token token) invalid_outcome) (check_permit system token >> marks)
        (after-Leaves P (check_permit system token) marks (
          then-Leaves P (mark system token (some failure)) (release system (some failure))
            (mark-Leaves system token (some failure)) (release_failure-Keeps system failure)))
