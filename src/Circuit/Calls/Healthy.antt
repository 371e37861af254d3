-- ===== src/Circuit/Calls/Healthy.antt =====
-- The circuit where no system call fails (provider_circuit.py under workers/src/zippy_workers).
use new_logistic.Prelude.{◌≡◌, String, true, false, none, some, arith, eq_refl, string_eq}
use new_logistic.Circuit.Store.{
  Store, ok, System, call, check_private, exists, create, write, open_file, read, unlink,
}
use new_logistic.Circuit.Calls.{
  CircuitFailure, failure_value, is_token, reserve, finish, locked, persist, deny, check_permit,
  mark, release,
}
use new_logistic.Circuit.Calls.History.{begin, run, reserves, finishes}

abbrev pub healthy : System
healthy = record { fails = λ n. false; is_private = λ n. true; written = λ n text. text }

-- No request is in flight, and none has failed.
abbrev pub closed : Store
closed = record { active = none; releasing = none; opened = none }

-- The files while a request with this token is in flight, and after one has failed.
abbrev pub in_flight : String → Store
in_flight token = record { active = some token; releasing = none; opened = none }

abbrev pub latched : CircuitFailure → Store
latched failure = record { active = none; releasing = none; opened = some (failure_value failure) }

-- Where no system call fails, a closed circuit grants a request. A finish of that request without a
-- failure closes the circuit again, and one with a failure leaves it open.
pub reserve-finish-healthy :
    (token : String) (failure : CircuitFailure)
    → is_token token ≡ true
    → ((reserve healthy token (begin closed)).0 ≡ ok token)
      × ((run (reserves healthy token) closed ≡ in_flight token)
          × (((finish healthy token none (begin (in_flight token))).0 ≡ ok tt)
              × ((run (finishes healthy token none) (in_flight token) ≡ closed)
                  × (((finish healthy token (some failure) (begin (in_flight token))).0 ≡ ok tt)
                      × (run (finishes healthy token (some failure)) (in_flight token)
                          ≡ latched failure)))))
unfolding reserve locked persist deny call check_private exists create write finish check_permit
    mark release open_file read unlink
reserve-finish-healthy token failure good =
    let same = eq_refl token in
    (
      ground (arith, same),
      (
        ground (arith, same),
        (
          ground (arith, good, same),
          (
            ground (arith, good, same),
            (
              ground (arith, good, same, eq_refl (failure_value failure)),
              ground (arith, good, same, eq_refl (failure_value failure)),
            ),
          ),
        ),
      ),
    )
