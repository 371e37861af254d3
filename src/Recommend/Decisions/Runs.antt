-- ===== src/Recommend/Decisions/Runs.antt =====
-- workers/src/zippy_workers/recommendation_reviews.py: what holds of a store after any sequence of calls.
use new_logistic.Prelude.{
  String, Bool, true, false, ◌≡◌, refl, sym, subst, ap, ◌∙◌, Option, none, some, List, [], ◌∷◌,
  ◌==◌, string_eq, if◌then◌else◌, arith, eq_iff,
}
use new_logistic.Prelude.Dict.{Dict, lookup, insert, lookup-insert}
use new_logistic.Recommend.Reviews.{
  Status, pending, accepted, rejected, expired, Review, Creation, Store, new_store, is_pending,
  store_review,
}
use new_logistic.Recommend.Decisions.{Step, run_step, run}
use new_logistic.Recommend.Decisions.Effects.{
  Effect, keeps, creates, changes, is_sound, run_step-Effect,
}

-- What a lookup finds after a store, by whether it is for the key that was stored.
found-insert :
    {V : Type 0} (key stored : String) (v : V) (d : Dict V) (P : Option V → Type 0)
    → (stored ≡ key → P (some v))
    → P (lookup key d)
    → P (lookup key (insert stored v d))
found-insert key stored v d P here there =
    subst P (sym (lookup-insert stored key v d)) (go (stored == key) refl)
  where
    go : (b : Bool) → (stored == key) ≡ b → P (if b then some v else lookup key d)
    go true same = here ((eq_iff stored key).0 same)
    go false differ = there

pub insert-found :
    {V : Type 0} (key stored : String) (v : V) (d : Dict V)
    → stored ≡ key
    → lookup key (insert stored v d) ≡ some v
insert-found key stored v d e =
    let same = (eq_iff stored key).1 e in lookup-insert stored key v d ∙ rw (same) refl

-- A record has a creation, and says what fits its status.
abbrev IsGood : Store → String → Option Review → Type 0
IsGood s id none = Unit
IsGood s id (some r) =
    ((known : Creation × Review) × (lookup id s.creations ≡ some known)) × (is_sound r ≡ true)

abbrev IsStore : Store → Type 0
IsStore s = (id : String) → IsGood s id (lookup id s.records)

-- The moves of the status of a review, which may not exist.
pub data Moves : Option Status → Option Status → Type 0 where
  stays : {status : Option Status} → Moves status status
  creation : Moves none (some pending)
  acceptance : Moves (some pending) (some accepted)
  rejection : Moves (some pending) (some rejected)
  expiry : Moves (some pending) (some expired)

abbrev pub status_in : Option Review → Option Status
status_in none = none
status_in (some r) = some r.status

-- The status of a review in a store.
abbrev pub status_at : String → Store → Option Status
status_at id s = status_in (lookup id s.records)

IsGood-found :
    (s : Store) (id : String) {o : Option Review} {r : Review}
    → IsGood s id o
    → o ≡ some r
    → IsGood s id (some r)
IsGood-found s id g e = subst (IsGood s id) e g

-- A store keeps being good.
IsGood-creates :
    (s : Store) (id key : String) (c : Creation) (r : Review) (o : Option Review)
    → IsGood s key o
    → IsGood (store_review id c r s) key o
IsGood-creates s id key c r none g = tt
IsGood-creates s id key c r (some x) g = (
  found-insert key id (c, r) s.creations (λ o. (known : Creation × Review) × (o ≡ some known))
      (λ e. ((c, r), refl)) g.0,
  g.1,
)

IsGood-same :
    (s t : Store) (key : String) (o : Option Review)
    → t.creations ≡ s.creations
    → IsGood s key o
    → IsGood t key o
IsGood-same s t key none e g = tt
IsGood-same s t key (some x) e g = ((g.0.0, ap (lookup key) e ∙ g.0.1), g.1)

Effect-IsStore : {s t : Store} → Effect s t → IsStore s → IsStore t
Effect-IsStore keeps g = g
Effect-IsStore {s} (creates id c r new waiting sound) g = λ key.
    found-insert key id r s.records (IsGood (store_review id c r s) key)
      (λ e. (((c, r), insert-found key id (c, r) s.creations e), sound))
      (IsGood-creates s id key c r (lookup key s.records) (g key))
Effect-IsStore {s} {t} (changes id r r' s' found waiting final keeps_sound records creations) g =
    λ key.
      subst (λ d. IsGood t key (lookup key d)) (sym records)
        (found-insert key id r' s.records (IsGood t key)
          (λ e.
            let old = IsGood-found s id (g id) found in
            subst (λ k. IsGood t k (some r')) e
              ((old.0.0, ap (lookup id) creations ∙ old.0.1), keeps_sound old.1))
          (IsGood-same s t key (lookup key s.records) creations (g key)))

is_pending-pending : (status : Status) → is_pending status ≡ true → status ≡ pending
is_pending-pending pending h = refl
is_pending-pending accepted h = absurd (cc)
is_pending-pending rejected h = absurd (cc)
is_pending-pending expired h = absurd (cc)

final-Moves : (status : Status) → is_pending status ≡ false → Moves (some pending) (some status)
final-Moves pending h = absurd (cc)
final-Moves accepted h = acceptance
final-Moves rejected h = rejection
final-Moves expired h = expiry

no_record :
    (s : Store) (id : String) (o : Option Review)
    → IsGood s id o
    → lookup id s.creations ≡ none
    → o ≡ none
no_record s id none g e = refl
no_record s id (some r) g e = absurd (let (known, h) = g.0 in ground (arith, e, h))

Effect-Moves :
    {s t : Store}
    → Effect s t
    → IsStore s
    → (key : String) → Moves (status_at key s) (status_at key t)
Effect-Moves keeps g key = stays
Effect-Moves {s} (creates id c r new waiting sound) g key =
    found-insert key id r s.records (λ o. Moves (status_at key s) (status_in o))
      (λ e.
        let absent =
          no_record s key (lookup key s.records) (g key)
            (subst (λ k. lookup k s.creations ≡ none) e new) in
        subst (λ o. Moves (status_in o) (some r.status)) (sym absent)
          (subst (λ status. Moves none (some status)) (sym (is_pending-pending r.status waiting))
            creation))
      stays
Effect-Moves {s} {t} (changes id r r' s' found waiting final keeps_sound records creations) g key =
    subst (λ d. Moves (status_at key s) (status_in (lookup key d))) (sym records)
      (found-insert key id r' s.records (λ o. Moves (status_at key s) (status_in o))
        (λ e.
          subst (λ o. Moves (status_in o) (some r'.status))
            (sym (subst (λ k. lookup k s.records ≡ some r) e found))
            (subst (λ status. Moves (some status) (some r'.status))
              (sym (is_pending-pending r.status waiting)) (final-Moves r'.status final)))
        stays)

-- A record that is no longer pending is not changed.
Effect-final :
    {s t : Store}
    → Effect s t
    → IsStore s
    → (key : String) (r : Review) → lookup key s.records ≡ some r
    → is_pending r.status ≡ false
    → lookup key t.records ≡ some r
Effect-final keeps g key r found final = found
Effect-final {s} (creates id c new_one new waiting sound) g key r found final =
    found-insert key id new_one s.records (λ o. o ≡ some r)
      (λ e.
        let absent =
          no_record s key (lookup key s.records) (g key)
            (subst (λ k. lookup k s.creations ≡ none) e new) in
        absurd (ground (arith, absent, found)))
      found
Effect-final {s} {t} (changes id old r' s' was waiting final' keeps_sound records creations) g key r
      found final =
    subst (λ d. lookup key d ≡ some r) (sym records)
      (found-insert key id r' s.records (λ o. o ≡ some r)
        (λ e.
          let same : some old ≡ some r =
            sym (subst (λ k. lookup k s.records ≡ some old) e was) ∙ found in
          let still =
            subst (λ o. status_in o ≡ some pending) same
              (ap some (is_pending-pending old.status waiting)) in
          absurd (ground (arith, still, final)))
        found)

new_store-IsStore : IsStore new_store
unfolding new_store
new_store-IsStore id = tt

run-IsStore : (steps : List Step) (s : Store) → IsStore s → IsStore (run steps s)
unfolding run
run-IsStore [] s g = g
run-IsStore (step ∷ steps) s g =
    run-IsStore steps (run_step step s) (Effect-IsStore (run_step-Effect step s) g)

-- Whatever calls were made, the next one moves each review only as the machine of its status allows: a review is
-- created pending, and a pending one is accepted, rejected or expires.
pub run_step-Moves :
    (steps : List Step) (step : Step) (id : String)
    → Moves
        (status_at id (run steps new_store))
        (status_at id (run_step step (run steps new_store)))
run_step-Moves steps step id =
    Effect-Moves (run_step-Effect step (run steps new_store))
      (run-IsStore steps new_store new_store-IsStore) id

-- Whatever calls were made, each review was to expire after its creation, and a decision on it is one of a
-- person, was made before it expired, and accepts a candidate only if it was recommended.
pub run-is_sound :
    (steps : List Step) (id : String) (r : Review)
    → lookup id (run steps new_store).records ≡ some r
    → is_sound r ≡ true
run-is_sound steps id r found =
    (IsGood-found (run steps new_store) id (run-IsStore steps new_store new_store-IsStore id)
      found).1

run_from_final :
    (steps : List Step) (s : Store) (id : String) (r : Review)
    → IsStore s
    → lookup id s.records ≡ some r
    → is_pending r.status ≡ false
    → lookup id (run steps s).records ≡ some r
unfolding run
run_from_final [] s id r g found final = found
run_from_final (step ∷ steps) s id r g found final =
    let effect = run_step-Effect step s in
    run_from_final steps (run_step step s) id r (Effect-IsStore effect g)
      (Effect-final effect g id r found final) final

-- A review that was decided or has expired stays as it is, whatever calls follow.
pub run-run_final :
    (before steps : List Step) (id : String) (r : Review)
    → lookup id (run before new_store).records ≡ some r
    → is_pending r.status ≡ false
    → lookup id (run steps (run before new_store)).records ≡ some r
run-run_final before steps id r found final =
    run_from_final steps (run before new_store) id r
      (run-IsStore before new_store new_store-IsStore) found final
