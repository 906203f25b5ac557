-- ===== src/Notifications/Service/Webhook.antt =====
-- The delivery of one event to its webhook targets: src/notifications/service.ts.
use streamgive_backend.Prelude.{
  ℕ, ◌/◌, String, Bool, true, false, ◌&&◌, Option, none, some, List, [], ◌∷◌, ◌<>◌, show_ℕ,
}
use streamgive_backend.Db.Exec.{
  Result, ok, err, Env, Exec, World, Post, NotificationEvent, pure, lift, ◌>>=◌, ◌>>◌, catch, clock,
  random_uuid, send_request, given,
}
use streamgive_backend.Db.Keeps.{Relation, Keeps}
use streamgive_backend.Notifications.Service.Message.{
  Webhooks, signature_header, timestamp_header, delivery_header, truthy, event_id, WebhookTarget,
  error_name, Outcome, answered,
}
use streamgive_backend.Notifications.Service.Log.{
  write_log, find_delivered, record_notification_delivery,
}

module _ (env : Env) (hooks : Webhooks) where
  abbrev pub signed_payload : String → String → String → String
  signed_payload timestamp id body = timestamp <> "." <> id <> "." <> body

  abbrev pub signature : WebhookTarget → String → String → String → List (String × String)
  signature target timestamp id body = elim (truthy target.secret) [
    | none ↦ []
    | some secret ↦
        (signature_header, "v1=" <> hooks.hmac secret (signed_payload timestamp id body)) ∷ []
  ]

  unfoldable pub post_of : NotificationEvent → WebhookTarget → String → String → Post
  post_of event target timestamp id =
      let body = hooks.stringify event in
      record {
        url = target.url;
        headers =
            ("content-type", "application/json")
            ∷ (timestamp_header, timestamp)
            ∷ (delivery_header, id)
            ∷ signature target timestamp id body;
        body = body;
      }

  unfoldable pub post_event : Post → Exec Outcome
  post_event post =
      catch (do status ← send_request env post; pure (answered status))
        (λ e. pure (record { success = false; problem = some (error_name e) }))

  -- The request with its headers, its outcome in the counters and in the log.
  unfoldable pub deliver_as : NotificationEvent → WebhookTarget → String → String → Exec Bool
  unfolding post_of post_event record_notification_delivery write_log
  deliver_as event target timestamp id = do
    outcome ← post_event (post_of event target timestamp id)
    record_notification_delivery env outcome.success
    write_log env event target.channel outcome
    pure outcome.success

  -- `deliveryId ?? randomUUID()`
  unfoldable pub deliver_at : NotificationEvent → WebhookTarget → ℕ → Option String → Exec Bool
  unfolding deliver_as
  deliver_at event target now supplied = do
    id ← given supplied (random_uuid env) pure
    deliver_as event target (show_ℕ (now / 1000)) id

  unfoldable pub deliver : NotificationEvent → WebhookTarget → Exec Bool
  unfolding deliver_at
  deliver event target = do
    now ← clock env
    supplied ← lift hooks.delivery_id
    deliver_at event target now supplied

  unfoldable pub notify_webhook_target : NotificationEvent → WebhookTarget → Exec Bool
  unfolding find_delivered deliver
  notify_webhook_target event target = do
    done ← find_delivered env (truthy (event_id event)) target.channel
    given done (deliver event target) pure

  -- `Promise.all`: every delivery runs, and the first that throws is what is thrown.
  unfoldable pub notify_each : NotificationEvent → List WebhookTarget → Exec Bool
  unfolding notify_webhook_target
  notify_each event [] w = (ok true, w)
  notify_each event (target ∷ targets) w =
      let (first, v) = notify_webhook_target event target w in
      let (rest, u) = notify_each event targets v in
      elim first [
        | err e ↦ (err e, u)
        | ok a ↦ elim rest [ err e ↦ (err e, u) | ok b ↦ (ok (a && b), u) ]
      ]

-- What every delivery keeps, the deliveries to all targets keep.
pub notify_each-Keeps :
    (R : Relation) (env : Env) (hooks : Webhooks) (event : NotificationEvent)
    → ((target : WebhookTarget) → Keeps R (notify_webhook_target env hooks event target))
    → (targets : List WebhookTarget) → Keeps R (notify_each env hooks event targets)
unfolding notify_each
notify_each-Keeps R env hooks event one [] = record { at = R.same }
notify_each-Keeps R env hooks event one (target ∷ targets) = record {
  at = λ w.
      let v = (notify_webhook_target env hooks event target w).1 in
      joined (notify_webhook_target env hooks event target w).0
        (notify_each env hooks event targets v) w
        (R.after ((one target).at w) ((notify_each-Keeps R env hooks event one targets).at v));
}
  where
    joined :
        (first : Result Bool) (rest : Result Bool × World) (w : World)
        → R.holds w rest.1
        → R.holds w
            (elim first as (λ _. Result Bool × World) [
              | err e ↦ (err e, rest.1)
              | ok a ↦ elim rest.0 as (λ _. Result Bool × World) [
                | err e ↦ (err e, rest.1)
                | ok b ↦ (ok (a && b), rest.1)
              ]
            ]).1
    joined (err e) rest w h = h
    joined (ok a) (err e, u) w h = h
    joined (ok a) (ok b, u) w h = h
