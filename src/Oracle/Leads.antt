-- ===== src/Oracle/Leads.antt =====
-- prototypes/xano/reference_model.py: what the body of a transaction leads to when it succeeds.
use new_logistic.Prelude.{◌≡◌, refl, subst, Bool, true, false, arith}
use new_logistic.Oracle.{Code, Db, Result, ok, err, Body, transaction, guard, ◌>>=◌}

-- A body that succeeds leads from `P` to `Q`.
pub record Leads {A : Type 0} (P : Db → Type 0) (body : Body A) (Q : Db → Type 0) : Type 0 where
  pub leads : (db db' : Db) (a : A) → body db ≡ ok (a, db') → P db → Q db'

pub bind-Leads :
    {A B : Type 0} (P Q R : Db → Type 0) (m : Body A) (f : A → Body B)
    → Leads P m Q
    → ((a : A) → Leads Q (f a) R)
    → Leads P (m >>= f) R
bind-Leads {A = A} {B = B} P Q R m f first second = record {
  leads = λ db db' b e h. go db db' b e h (m db) refl;
}
  where
    go :
        (db db' : Db) (b : B)
        → (m >>= f) db ≡ ok (b, db')
        → P db
        → (x : Result (A × Db)) → m db ≡ x
        → R db'
    go db db' b e h (ok (a, mid)) at =
        (second a).leads mid db' b (ground (arith)) (first.leads db mid a at h)
    go db db' b e h (err code) at = absurd (ground (arith))

pub transaction-Leads :
    {A : Type 0} (P : Db → Type 0) (good : Bool) (code : Code) (body : Body A) (db : Db)
    → Leads P body P
    → P db
    → P (guard good code (transaction body) db).1
transaction-Leads {A = A} P false code body db keeps c = c
transaction-Leads {A = A} P true code body db keeps c = go (body db) refl
  where
    go : (x : Result (A × Db)) → body db ≡ x → P (transaction body db).1
    go (ok (a, mid)) at = subst P (ground (arith)) (keeps.leads db mid a at c)
    go (err code') at = subst P (ground (arith)) c
