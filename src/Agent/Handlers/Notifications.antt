-- ===== src/Agent/Handlers/Notifications.antt =====
-- workers/src/zippy_workers/handlers.py: a notification is sent and logged.
use new_logistic.Prelude.{
  String, concat, true, false, List, [], ◌∷◌, not, arith, ◌≡◌, if◌then◌else◌, string_eq,
}
use new_logistic.Prelude.Json.{
  Fields, str, obj, end, field, get, get_or, truthy, or_else, fields_of,
}
use new_logistic.Agent.Handlers.{
  Call, send, mark_notification_sent, mark_notification_failed, log_notification, result, Ports,
  Action, succeed, refuse, Python, text_of, ask, has_value, is_sent,
}

module _ (python : Python) (answer : Ports) where
  -- The result of a delivery has the fields of `DeliveryResult`.
  unfoldable pub process_notification_job : Fields → Action
  process_notification_job payload =
      let notification_id = get "notification_id" payload in
      let user_id = get "user_id" payload in
      let channel = get_or "channel" (str "in_app") payload in
      let title = get_or "title" (str "") payload in
      let body = get_or "body" (str "") payload in
      let ntype = get_or "notification_type" (str "system") payload in
      let inner_payload = or_else (get "payload" payload) (obj end) in
      if not (truthy notification_id)
      then refuse "missing notification_id"
      else if not (truthy user_id)
      then refuse "missing user_id"
      else ask answer (send (text_of python user_id) title body inner_payload) (λ sent.
        let delivery = fields_of sent in
        if truthy (get "ok" delivery)
        then ask answer
            (mark_notification_sent (text_of python notification_id) (get "external_id" delivery))
            (λ _.
              ask answer
                (log_notification (text_of python user_id) channel ntype title body inner_payload
                  (get "external_id" delivery) (concat "nq:" (text_of python notification_id)))
                (λ _. succeed (
                  field "notification_id" notification_id (
                    field "provider" (get "provider" delivery)
                      (field "external_id" (get "external_id" delivery) end)))))
        else ask answer
            (mark_notification_failed (text_of python notification_id) (get "error" delivery))
            (λ _ calls. (
              result (record {
                ok = false;
                detail =
                    field "notification_id" notification_id
                      (field "error" (get "error" delivery) end);
              }),
              calls,
            )))

  -- The calls of a notification: it is sent; then it is marked, as sent exactly if the sender says
  -- so; and one that is marked as sent is logged for its user, under a key of its own id.
  abbrev pub IsNotification : String → String → List Call → Type 0
  IsNotification id user (send u t b p ∷ []) =
      (u ≡ user) × (has_value (answer [] (send u t b p)) ≡ false)
  IsNotification id user (send u t b p ∷ mark_notification_failed i e ∷ []) =
      (u ≡ user) × (i ≡ id) × (is_sent (answer [] (send u t b p)) ≡ false)
  IsNotification id user (send u t b p ∷ mark_notification_sent i e ∷ []) =
      (u ≡ user)
      × (i ≡ id)
      × (is_sent (answer [] (send u t b p)) ≡ true)
      × (has_value (answer (send u t b p ∷ []) (mark_notification_sent i e)) ≡ false)
  IsNotification id user
        (send u t b p ∷ mark_notification_sent i e ∷ log_notification v c n t' b' p' e' k ∷ []) =
      (u ≡ user)
      × (i ≡ id)
      × (v ≡ user)
      × (k ≡ concat "nq:" id)
      × (is_sent (answer [] (send u t b p)) ≡ true)
  IsNotification id user _ = ⊥

  -- A notification with an id and a user is sent to the user, once, and marked, as sent exactly if the
  -- sender says so, as failed if not, unless the sender raises. One that was marked as sent is logged
  -- for the user under a key of its id, unless marking raises. No other call is made.
  pub process_notification_job-IsNotification :
      (payload : Fields)
      → truthy (get "notification_id" payload) ≡ true
      → truthy (get "user_id" payload) ≡ true
      → IsNotification
          (text_of python (get "notification_id" payload))
          (text_of python (get "user_id" payload))
          (process_notification_job payload []).1
  unfolding process_notification_job
  process_notification_job-IsNotification payload id user = ground arith
