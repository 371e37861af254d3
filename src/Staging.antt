-- ===== src/Staging.antt =====
-- workers/src/zippy_workers/staging_authorization.py: a grant is consumed by a file of its own.
pub mod Once
mod Tests
use new_logistic.Prelude.{
  ℕ, String, concat, Bool, true, false, not, List, [], ◌∷◌, ◌==◌, nat_eq, string_eq, ◌&&◌, ◌||◌,
  ltb, leb, if◌then◌else◌, length,
}
use new_logistic.Prelude.Text.{codes}

-- The reasons of `UnauthorizedCapability`; `raises` is an OSError that leaves `consume`.
pub data Outcome : Type 0 where
  granted grant_invalid claim_store_unsafe grant_already_used claim_store_unavailable raises :
      Outcome

-- What the system calls of one `consume` do: which of them fail, and what `fstat` and `geteuid` say.
pub record System : Type 0 where
  pub no_directory : Bool
  pub no_fstat : Bool
  pub owner : ℕ
  pub user : ℕ
  pub mode : ℕ
  pub no_file : Bool
  pub no_file_sync : Bool
  pub no_directory_sync : Bool
  pub no_file_close : Bool
  pub no_directory_close : Bool

abbrev is_id_char : ℕ → Bool
is_id_char c = (leb b'a' c && leb c b'z') || (leb b'0' c && leb c b'9') || c == b'-'

abbrev pub all_id_chars : List ℕ → Bool
all_id_chars [] = true
all_id_chars (c ∷ s) = is_id_char c && all_id_chars s

-- `re.fullmatch(r"[a-z0-9-]{1,64}", grant_id)`
abbrev pub is_grant_id : List ℕ → Bool
is_grant_id s = all_id_chars s && ltb 0 (length s) && leb (length s) 64

abbrev pub file_name : String → String
file_name grant_id = concat grant_id ".consumed"

abbrev pub has_file : String → List String → Bool
has_file name [] = false
has_file name (f ∷ files) = f == name || has_file name files

-- After the file was created: both syncs, and the close that the inner `finally` makes.
abbrev pub synced : System → Outcome
synced sys =
    if sys.no_file_sync || sys.no_directory_sync || sys.no_file_close
    then claim_store_unavailable
    else granted

-- The file is created exclusively: one that is there is not opened, and what was created is left.
unfoldable pub create : System → String → List String → Outcome × List String
create sys name files =
    if has_file name files
    then (grant_already_used, files)
    else if sys.no_file
    then (claim_store_unavailable, files)
    else (synced sys, name ∷ files)

-- Within the directory that was opened.
unfoldable pub claim : System → String → List String → Outcome × List String
claim sys name files =
    if sys.no_fstat
    then (claim_store_unavailable, files)
    else if not (sys.owner == sys.user) || not (sys.mode == 0x1c0)
    then (claim_store_unsafe, files)
    else create sys name files

-- The outer `finally` closes the directory, where an OSError is not caught.
abbrev pub closed : System → Outcome × List String → Outcome × List String
closed sys (o, files) = (if sys.no_directory_close then raises else o, files)

unfoldable pub consume : System → String → List String → Outcome × List String
consume sys grant_id files =
    if not (is_grant_id (codes grant_id))
    then (grant_invalid, files)
    else if sys.no_directory
    then (claim_store_unavailable, files)
    else closed sys (claim sys (file_name grant_id) files)

-- Calls of `consume` one after another, each with what its system calls do.
unfoldable pub consume_all : List (System × String) → List String → List String
consume_all [] files = files
consume_all ((sys, grant_id) ∷ calls) files = consume_all calls (consume sys grant_id files).1
