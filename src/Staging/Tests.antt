-- ===== src/Staging/Tests.antt =====
-- The claims of grants (workers/src/zippy_workers/staging_authorization.py) in a directory that is private.
use new_logistic.Prelude.{true, false, ◌≡◌, refl, [], ◌∷◌}
use new_logistic.Staging.{
  granted, grant_invalid, claim_store_unsafe, grant_already_used, claim_store_unavailable, raises,
  System, create, claim, consume, consume_all,
}
use new_logistic.Staging.Once.{is_granted, consume-consume_once}

-- All system calls succeed.
abbrev private_store : System
private_store = record {
  no_directory = false;
  no_fstat = false;
  owner = 1000;
  user = 1000;
  mode = 0x1c0;
  no_file = false;
  no_file_sync = false;
  no_directory_sync = false;
  no_file_close = false;
  no_directory_close = false;
}

abbrev no_sync : System
no_sync = record private_store { no_file_sync = true }

first_call : consume private_store "grant-1" [] ≡ (granted, "grant-1.consumed" ∷ [])
unfolding consume claim create
first_call = refl

capital_id : (consume private_store "Grant" []).0 ≡ grant_invalid
unfolding consume
capital_id = refl

readable_store :
    (consume (record private_store { mode = 0x1ed }) "grant-1" []).0 ≡ claim_store_unsafe
unfolding consume claim
readable_store = refl

closing_fails :
    (consume (record private_store { no_directory_close = true }) "grant-1" []).0 ≡ raises
unfolding consume claim create
closing_fails = refl

-- A run that failed after the file was made leaves the grant used.
failed_sync : consume no_sync "grant-1" [] ≡ (claim_store_unavailable, "grant-1.consumed" ∷ [])
unfolding consume claim create
failed_sync = refl

after_failed_sync :
    (consume private_store "grant-1" ("grant-1.consumed" ∷ [])).0 ≡ grant_already_used
unfolding consume claim create
after_failed_sync = refl

consume-consume_once_example :
    is_granted
      (consume private_store "grant-1"
        (consume_all ((no_sync, "grant-2") ∷ []) (consume private_store "grant-1" []).1)).0
    ≡ false
unfolding consume claim create
consume-consume_once_example =
    consume-consume_once private_store private_store "grant-1" ((no_sync, "grant-2") ∷ []) [] refl
