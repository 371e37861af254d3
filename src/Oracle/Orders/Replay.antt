-- ===== src/Oracle/Orders/Replay.antt =====
-- prototypes/xano/reference_model.py: a command that is sent again under its idempotency key.
use new_logistic.Prelude.{
  ◌≡◌, ◌≢◌, refl, sym, subst, String, Bool, true, false, none, some, List, [], ◌∷◌, ◌++◌, ◌&&◌, not,
  ◌==◌, string_eq, arith, Bool-cases, Option-cases, inl, inr, eq_iff, eq_refl,
}
use new_logistic.Prelude.Json.{Json}
use new_logistic.Oracle.{
  Code, idempotency_conflict, Principal, Db, Result, ok, err, find, any, ◌>>=◌, Body, transaction,
  guard,
}
use new_logistic.Oracle.Orders.{is_command, replay, remember, commanded}

-- The command under the key has this fingerprint and this result.
abbrev pub Remembers : (Json → String) → Principal → String → String → Json → String → Db → Type 0
Remembers fingerprint p action key payload result db =
    elim (find (is_command p action key) db.commands) [
      | none ↦ false
      | some c ↦ c.fingerprint == fingerprint payload && c.result == result
    ]
    ≡ true

-- An answer that is remembered, and is not empty.
abbrev pub Answered : (Json → String) → Principal → String → String → Json → String → Db → Type 0
Answered fingerprint p action key payload r db =
    Remembers fingerprint p action key payload r db × (r ≢ "")

find-append :
    {A : Type 0} (p : A → Bool) (xs : List A) (x : A)
    → any p xs ≡ false
    → p x ≡ true
    → find p (xs ++ x ∷ []) ≡ some x
find-append p [] x h e = rw (e) refl
find-append p (y ∷ xs) x h e = ground (arith, find-append p xs x, Bool-cases (p y))

-- What holds of an answer and the database that it leaves.
abbrev pub Ends : {A : Type 0} → (A → Db → Type 0) → Body A → Type 0
Ends {A = A} Q body = (db db' : Db) (a : A) → body db ≡ ok (a, db') → Q a db'

pub bind-Ends :
    {A B : Type 0} (Q : B → Db → Type 0) (m : Body A) (f : A → Body B)
    → ((a : A) → Ends Q (f a))
    → Ends Q (m >>= f)
bind-Ends {A = A} {B = B} Q m f ends db db' b e = go (m db) refl
  where
    go : (x : Result (A × Db)) → m db ≡ x → Q b db'
    go (ok (a, mid)) at = ends a mid db' b (ground (arith))
    go (err code) at = absurd (ground (arith))

-- What follows a transaction that has succeeded, under the same guard.
pub transaction-again :
    {A : Type 0} (good : Bool) (code : Code) (body next : Body A) (other : Result A)
    → (db : Db) (r : A) → ((db' : Db) → body db ≡ ok (r, db') → transaction next db' ≡ (other, db'))
    → (guard good code (transaction body) db).0 ≡ ok r
    → guard good code (transaction next) (guard good code (transaction body) db).1
      ≡ (other, (guard good code (transaction body) db).1)
transaction-again false code body next other db r again e = absurd (ground (arith))
transaction-again {A = A} true code body next other db r again e = go (body db) refl
  where
    go :
        (x : Result (A × Db))
        → body db ≡ x
        → transaction next (transaction body db).1 ≡ (other, (transaction body db).1)
    go (ok (a, mid)) at =
        let same : a ≡ r = ground (arith) in
        let next_run = again mid (ground (arith)) in
        let here : (transaction body db).1 ≡ mid = ground (arith) in
        subst (λ q. transaction next q ≡ (other, q)) (sym here) next_run
    go (err code') at = absurd (ground (arith))

module _ (fingerprint : Json → String) where
  -- What a remembered command answers.
  remember-Remembers :
      (p : Principal) (action key : String) (payload : Json) (result r : String) (db db' : Db)
      → remember fingerprint p action key payload result db ≡ ok (r, db')
      → Remembers fingerprint p action key payload r db'
  unfolding remember
  remember-Remembers p action key payload result r db db' e =
      elim (Bool-cases (any (is_command p action key) db.commands)) [
        | inl old ↦ absurd (ground (arith))
        | inr new ↦ ground (
          arith,
          eq_refl result,
          eq_refl p.tenant,
          eq_refl p.account,
          eq_refl action,
          eq_refl key,
          eq_refl (fingerprint payload),
          find-append (is_command p action key) db.commands (record {
            tenant = p.tenant;
            actor = p.account;
            action = action;
            key = key;
            fingerprint = fingerprint payload;
            result = result;
          }),
        )
      ]

  replay-Remembers :
      (p : Principal) (action key : String) (payload : Json) (result : String) (db : Db)
      → key ≢ ""
      → Remembers fingerprint p action key payload result db
      → replay fingerprint p action key payload db ≡ ok (some result, db)
  unfolding replay
  replay-Remembers p action key payload result db named h =
      elim (Option-cases (find (is_command p action key) db.commands)) [
        | inl missing ↦ ground (arith, missing)
        | inr there ↦ ground (arith, there.1, eq_iff key "", eq_iff there.0.result result)
      ]

  pub commanded-Ends :
      (p : Principal) (action key : String) (payload : Json) (body : Body String)
      → Ends (Answered fingerprint p action key payload) body
      → Ends
          (Answered fingerprint p action key payload)
          (commanded fingerprint p action key payload body)
  unfolding commanded replay
  commanded-Ends p action key payload body ends db db' r e =
      elim (Option-cases (find (is_command p action key) db.commands)) [
        | inl missing ↦ ends db db' r (ground (arith, Bool-cases (key == "")))
        | inr there ↦
            elim (Bool-cases (there.0.fingerprint == fingerprint payload && not (key == ""))) [
              | inl same ↦ elim (Bool-cases (there.0.result == "")) [
                | inl blank ↦ ends db db' r (ground (arith))
                | inr answer ↦
                    let is_db : db ≡ db' = ground (arith) in
                    let is_r : there.0.result ≡ r = ground (arith) in
                    subst (λ q. Answered fingerprint p action key payload r q) is_db
                      (
                        ground (arith, there.1, eq_refl r),
                        λ blank. ground (arith, eq_iff there.0.result ""),
                      )
              ]
              | inr other ↦ absurd (ground (arith))
            ]
      ]

  pub commanded-key :
      (p : Principal) (action key : String) (payload : Json) (body : Body String)
      → (db : Db) (a : String × Db) → commanded fingerprint p action key payload body db ≡ ok a
      → key ≢ ""
  unfolding commanded replay
  commanded-key p action key payload body db a e blank = ground (arith, eq_iff key "")

  pub commanded-again :
      (p : Principal) (action key : String) (payload : Json) (body body' : Body String)
      → Ends (Answered fingerprint p action key payload) body
      → (db db' : Db) (r : String)
      → commanded fingerprint p action key payload body db ≡ ok (r, db')
      → commanded fingerprint p action key payload body' db' ≡ ok (r, db')
  unfolding commanded
  commanded-again p action key payload body body' ends db db' r e =
      let done = commanded-Ends p action key payload body ends db db' r e in
      let named = commanded-key p action key payload body db (r, db') e in
      ground (arith, eq_iff r "", done.1, replay-Remembers p action key payload r db' named done.0)

  pub commanded-other :
      (p : Principal) (action key : String) (payload payload' : Json) (r : String)
      (body : Body String) (db : Db)
      → key ≢ ""
      → Remembers fingerprint p action key payload r db
      → fingerprint payload ≢ fingerprint payload'
      → commanded fingerprint p action key payload' body db ≡ err idempotency_conflict
  unfolding commanded replay
  commanded-other p action key payload payload' r body db named h differs =
      elim (Option-cases (find (is_command p action key) db.commands)) [
        | inl missing ↦ ground (arith, missing)
        | inr there ↦ ground (
          arith,
          there.1,
          eq_iff key "",
          eq_iff there.0.fingerprint (fingerprint payload),
          eq_iff there.0.fingerprint (fingerprint payload'),
        )
      ]

  pub remember-Answered :
      (p : Principal) (action key : String) (payload : Json) (result : String)
      → result ≢ ""
      → Ends
          (Answered fingerprint p action key payload)
          (remember fingerprint p action key payload result)
  unfolding remember
  remember-Answered p action key payload result named db db' r e =
      let is_r : result ≡ r =
        ground (arith, Bool-cases (any (is_command p action key) db.commands)) in
      (remember-Remembers p action key payload result r db db' e, subst (λ q. q ≢ "") is_r named)
