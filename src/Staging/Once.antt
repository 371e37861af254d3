-- ===== src/Staging/Once.antt =====
-- workers/src/zippy_workers/staging_authorization.py: a grant is good for one invocation.
use new_logistic.Prelude.{
  String, Bool, true, false, ◌≡◌, refl, List, [], ◌∷◌, nat_eq, string_eq, eq_refl, arith,
}
use new_logistic.Staging.{
  Outcome, granted, System, file_name, has_file, create, claim, consume, consume_all,
}

abbrev pub is_granted : Outcome → Bool
is_granted granted = true
is_granted _ = false

create_kept :
    (sys : System) (name other : String) (files : List String)
    → has_file name files ≡ true
    → has_file name (create sys other files).1 ≡ true
unfolding create
create_kept sys name other files h = ground (arith, h)

create_used :
    (sys : System) (name : String) (files : List String)
    → has_file name files ≡ true
    → is_granted (create sys name files).0 ≡ false
unfolding create
create_used sys name files h = rw (h) refl

create_left :
    (sys : System) (name : String) (files : List String)
    → is_granted (create sys name files).0 ≡ true
    → has_file name (create sys name files).1 ≡ true
unfolding create
create_left sys name files h = ground (arith, h, eq_refl name)

consume_kept :
    (sys : System) (name grant_id : String) (files : List String)
    → has_file name files ≡ true
    → has_file name (consume sys grant_id files).1 ≡ true
unfolding consume claim
consume_kept sys name grant_id files h =
    ground (arith, h, create_kept sys name (file_name grant_id) files h)

consume_used :
    (sys : System) (grant_id : String) (files : List String)
    → has_file (file_name grant_id) files ≡ true
    → is_granted (consume sys grant_id files).0 ≡ false
unfolding consume claim
consume_used sys grant_id files h = ground (arith, h, create_used sys (file_name grant_id) files h)

consume_left :
    (sys : System) (grant_id : String) (files : List String)
    → is_granted (consume sys grant_id files).0 ≡ true
    → has_file (file_name grant_id) (consume sys grant_id files).1 ≡ true
unfolding consume claim
consume_left sys grant_id files h = ground (arith, h, create_left sys (file_name grant_id) files)

consume_all_kept :
    (calls : List (System × String)) (name : String) (files : List String)
    → has_file name files ≡ true
    → has_file name (consume_all calls files) ≡ true
unfolding consume_all
consume_all_kept [] name files h = h
consume_all_kept ((sys, grant_id) ∷ calls) name files h =
    consume_all_kept calls name (consume sys grant_id files).1
      (consume_kept sys name grant_id files h)

-- A grant that was consumed is never consumed again, whatever calls come between and whatever the
-- system calls do.
pub consume-consume_once :
    (first later : System) (grant_id : String) (calls : List (System × String))
    (files : List String)
    → is_granted (consume first grant_id files).0 ≡ true
    → is_granted (consume later grant_id (consume_all calls (consume first grant_id files).1)).0
      ≡ false
consume-consume_once first later grant_id calls files h =
    consume_used later grant_id (consume_all calls (consume first grant_id files).1) (
      consume_all_kept calls (file_name grant_id) (consume first grant_id files).1
        (consume_left first grant_id files h))
