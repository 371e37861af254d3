-- ===== src/Governance/Executor/Order.antt =====
-- api/services/synthetic_executor.py: an execution is recorded after its grant was consumed, and only then.
use mathlib.Core.List.{append_assoc}
use new_logistic.Prelude.{
  String, concat, Bool, true, false, ◌≡◌, refl, sym, subst, ◌∙◌, Option, some, List, [], ◌∷◌, ◌++◌,
  ◌&&◌, if◌then◌else◌,
}
use new_logistic.Prelude.Dict.{Dict}
use new_logistic.Prelude.Json.{Json, str}
use new_logistic.Governance.{Uuid, Library}
use new_logistic.Governance.Calls.{consumption, attempt}
use new_logistic.Governance.Repository.{
  Database, Sent, GovernanceResult, Outcome, done, refused, denied, guard, continue, pure,
  to_result, rows_of, transact, Act, ◌>>=◌, Cell, Refusal, refuse,
}
use new_logistic.Governance.Repository as Repository
use new_logistic.Governance.Executor.{record_completion, execute}

-- The outcome is a result that is allowed.
abbrev pub is_allowed : Outcome GovernanceResult → Bool
is_allowed (done r) = r.allowed
is_allowed (refused reason) = false

abbrev pub is_done : {A : Type 0} → Outcome A → Bool
is_done (done a) = true
is_done (refused reason) = false

-- The result of the database's answer to a transaction that comes after others.
abbrev pub reply_to : Library → Database → List Sent → Sent → Outcome GovernanceResult
reply_to python answer log s =
    (continue (rows_of (answer log s), log) (λ row log. (to_result python row, log))).0

module _ (python : Library) (answer : Database) (tenant g agent : Uuid)
    (action target type entity : Json) (hash : String) where
  -- The transactions that consume the grant and that record the execution.
  abbrev pub consuming : Sent
  consuming = record {
    tenant = tenant;
    call = consumption g agent action target type entity (str hash);
  }

  abbrev pub recording : Sent
  recording = record {
    tenant = tenant;
    call =
        attempt g agent action target type entity
          (python.sha256 (concat g.text (concat ":synthetic-complete:" hash))) "SUCCEEDED";
  }

  -- An outcome of the execution, and the log that it leaves.
  abbrev Ends : List Sent → Bool → Outcome GovernanceResult × List Sent → Type 0
  Ends log ok out = (is_done out.0 ≡ ok) × (out.1 ≡ log)

  asked :
      (s : Sent) (log : List Sent)
      → Repository.execute python answer s.tenant s.call log
        ≡ (reply_to python answer log s, log ++ s ∷ [])
  unfolding Repository.execute transact
  asked s log = go (rows_of (answer log s))
    where
      go :
          (o : Outcome (Option (Dict Cell)))
          → continue (o, log ++ s ∷ []) (λ row l. (to_result python row, l))
            ≡ ((continue (o, log) (λ row l. (to_result python row, l))).0, log ++ s ∷ [])
      go (done row) = refl
      go (refused reason) = refl

  -- After the execution was recorded, or after the database refused.
  finished :
      (b : Bool) (reason : Refusal) (r : GovernanceResult) (log : List Sent)
      → Ends log b (guard b reason (pure r) log)
  finished true reason r log = (refl, refl)
  finished false reason r log = (refl, refl)

  end_result : GovernanceResult
  end_result = record {
    allowed = true;
    reason_code = "SYNTHETIC_EXECUTION_RECORDED";
    governance_id = some g;
  }

  recorded_then :
      (o : Outcome GovernanceResult) (log : List Sent)
      → Ends log
          (is_allowed o)
          (continue (o, log) (λ r. guard r.allowed (denied r.reason_code) (pure end_result)))
  recorded_then (done r) log = finished r.allowed (denied r.reason_code) end_result log
  recorded_then (refused reason) log = (refl, refl)

  recorded :
      (log : List Sent)
      → Ends
          (log ++ recording ∷ [])
          (is_allowed (reply_to python answer log recording))
          (record_completion python answer tenant g agent action target type entity (str hash) log)
  unfolding record_completion end_result
  recorded log =
      subst
        (λ out.
          Ends (log ++ recording ∷ []) (is_allowed (reply_to python answer log recording))
            (continue out (λ r. guard r.allowed (denied r.reason_code) (pure end_result))))
        (sym (asked recording log))
        (recorded_then (reply_to python answer log recording) (log ++ recording ∷ []))

  -- What comes after the grant was consumed, or was not.
  consumed_guard :
      (b : Bool) (reason : Refusal) (log : List Sent)
      → Ends
          (if b then log ++ recording ∷ [] else log)
          (b && is_allowed (reply_to python answer log recording))
          (guard b reason
            (record_completion python answer tenant g agent action target type entity (str hash))
            log)
  consumed_guard true reason log = recorded log
  consumed_guard false reason log = (refl, refl)

  consumed_then :
      (o : Outcome GovernanceResult) (log : List Sent)
      → Ends
          (if is_allowed o then log ++ recording ∷ [] else log)
          (is_allowed o && is_allowed (reply_to python answer log recording))
          (continue
            (o, log)
            (λ r. guard r.allowed (denied r.reason_code) (
              record_completion python answer tenant g agent action target type entity (str hash))))
  consumed_then (done r) log = consumed_guard r.allowed (denied r.reason_code) log
  consumed_then (refused reason) log = (refl, refl)

  both_logs :
      (b : Bool) (log : List Sent)
      → (if b then (log ++ consuming ∷ []) ++ recording ∷ [] else log ++ consuming ∷ [])
        ≡ log ++ consuming ∷ (if b then recording ∷ [] else [])
  both_logs true log = append_assoc log (consuming ∷ []) (recording ∷ [])
  both_logs false log = refl

  -- The grant is consumed first. Where the database allows that, the execution is recorded, and nothing is
  -- done otherwise; the executor returns a result exactly if both were allowed.
  pub execute-is_allowed :
      (log : List Sent)
      → (is_done (execute python answer tenant g agent action target type entity (str hash) log).0
          ≡ (is_allowed (reply_to python answer log consuming)
              && is_allowed (reply_to python answer (log ++ consuming ∷ []) recording)))
        × ((execute python answer tenant g agent action target type entity (str hash) log).1
            ≡ log
              ++ consuming
                ∷ (if is_allowed (reply_to python answer log consuming)
                    then recording ∷ []
                    else []))
  unfolding execute
  execute-is_allowed log =
      let o = reply_to python answer log consuming in
      let log' = log ++ consuming ∷ [] in
      let after =
        subst
          (λ out.
            Ends (if is_allowed o then log' ++ recording ∷ [] else log')
              (is_allowed o && is_allowed (reply_to python answer log' recording))
              (continue out (λ r. guard r.allowed (denied r.reason_code) (
                record_completion python answer tenant g agent action target type entity
                  (str hash)))))
          (sym (asked consuming log)) (consumed_then o log') in
      (after.0, after.1 ∙ both_logs (is_allowed o) log)
