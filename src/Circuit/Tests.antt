-- ===== src/Circuit/Tests.antt =====
-- The circuit (provider_circuit.py under workers/src/zippy_workers) on concrete calls.
use new_logistic.Prelude.{◌≡◌, refl, String, true, false, none, some, List, [], ◌∷◌, ◌==◌, nat_eq}
use new_logistic.Circuit.Store.{
  System, ok, call, check_private, exists, create, write, open_file, read, unlink,
}
use new_logistic.Circuit.Calls.{
  timeout, reserve, finish, locked, persist, deny, check_permit, mark, release,
}
use new_logistic.Circuit.Calls.Refusal.{is_ok}
use new_logistic.Circuit.Calls.History.{
  Op, reserves, finishes, run, run_all, is_released, begin, reserve-reserve_released,
  finish-reserve_latched,
}
use new_logistic.Circuit.Calls.Healthy.{healthy, closed, in_flight, latched, reserve-finish-healthy}

abbrev first_token : String
first_token = "0123456789abcdef0123456789abcdef"

abbrev second_token : String
second_token = "ffffffffffffffff0000000000000000"

-- The removal of the reservation fails in the first finish; the second one succeeds.
abbrev faulty : System
faulty = record { fails = λ n. n == 13; is_private = λ n. true; written = λ n text. text }

abbrev between : List Op
between =
    reserves healthy second_token
    ∷ finishes healthy second_token none
    ∷ finishes healthy first_token none
    ∷ []

first_granted : (reserve healthy first_token (begin closed)).0 ≡ ok first_token
unfolding reserve locked persist deny call check_private exists create write
first_granted = refl

second_granted :
    (reserve healthy second_token
      (begin (run_all between (run (reserves healthy first_token) closed)))).0
    ≡ ok second_token
unfolding reserve locked persist deny call check_private exists create write finish check_permit
    mark release open_file read unlink
second_granted = refl

reserve-reserve_released_example :
    is_released between (run (reserves healthy first_token) closed) ≡ true
reserve-reserve_released_example =
    reserve-reserve_released healthy first_token first_token closed between healthy second_token
      second_token first_granted second_granted

-- A finish whose release fails leaves the circuit blocked.
half_released :
    (finish faulty first_token none (begin (in_flight first_token))).1.files
    ≡ record { active = some first_token; releasing = some first_token; opened = none }
unfolding reserve locked persist deny call check_private exists create write finish check_permit
    mark release open_file read unlink
half_released = refl

failed : (finish healthy first_token (some timeout) (begin (in_flight first_token))).0 ≡ ok tt
unfolding locked persist call check_private create write finish check_permit mark release open_file
    read unlink
failed = refl

finish-reserve_latched_example :
    is_ok
      (reserve healthy second_token (
        begin (
          run_all between
            (run (finishes healthy first_token (some timeout)) (in_flight first_token))))).0
    ≡ false
finish-reserve_latched_example =
    finish-reserve_latched healthy first_token timeout (in_flight first_token) between healthy
      second_token failed

reserve-finish-healthy_example :
    ((reserve healthy first_token (begin closed)).0 ≡ ok first_token)
    × ((run (reserves healthy first_token) closed ≡ in_flight first_token)
        × (((finish healthy first_token none (begin (in_flight first_token))).0 ≡ ok tt)
            × ((run (finishes healthy first_token none) (in_flight first_token) ≡ closed)
                × (((finish healthy first_token (some timeout) (begin (in_flight first_token))).0
                      ≡ ok tt)
                    × (run (finishes healthy first_token (some timeout)) (in_flight first_token)
                        ≡ latched timeout)))))
reserve-finish-healthy_example = reserve-finish-healthy first_token timeout refl
