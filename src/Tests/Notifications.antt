-- ===== src/Tests/Notifications.antt =====
-- The theorems on the delivery of notifications, at concrete events and targets.
use streamgive_backend.Prelude.{
  ◌≡◌, refl, String, true, false, is_empty, none, some, [], ◌∷◌, ◌<>◌, ◌-◌, ◌≤◌, length, drop, any,
  arith,
}
use streamgive_backend.Db.{NotificationLog, NotificationEndpoint}
use streamgive_backend.Db.Exec.{
  ok, err, Thrown, error, plain_error, World, NotificationEvent, ngo_approved, prisma,
}
use streamgive_backend.Notifications.ContactVerification.{escape_html}
use streamgive_backend.Notifications.ContactVerification.Escape.{Inert, escape_html-Inert}
use streamgive_backend.Notifications.Service.Message.{
  Webhooks, WebhookTarget, remember_delivered, is_text,
}
use streamgive_backend.Notifications.Service.Webhook.{notify_webhook_target}
use streamgive_backend.Notifications.Service.Notify.{notify, dispatch_notification}
use streamgive_backend.Notifications.Service.Remembered.{added, remember_delivered-Newest}
use streamgive_backend.Notifications.Service.Frame.{Delivered, dispatch_notification-Delivered}
use streamgive_backend.Notifications.Service.Silent.{
  notify_sends_nothing, notify_webhook_target_once,
}
use streamgive_backend.Notifications.Service.Signed.{Sent, notify_webhook_target-Sent}
use streamgive_backend.Tests.Fixtures.{quiet_env, world}

abbrev reference_error : Thrown
reference_error = error plain_error "ReferenceError" "deliveryId is not defined" none

-- The code as it is: `deliveryId` is not declared.
abbrev hooks : Webhooks
hooks = record {
  delivery_id = err reference_error;
  url = some "https://hooks.example/old";
  secret = some "s3cret";
  hmac = λ secret payload. secret <> ":" <> payload;
  stringify = λ event. "{}";
}

-- The code as it is meant: no delivery id is supplied.
abbrev supplied : Webhooks
supplied = record hooks { delivery_id = ok none }

abbrev event : NotificationEvent
event = ngo_approved "e21" "GOWNER" "n1"

abbrev endpoint : NotificationEndpoint
endpoint = record {
  id = "p1";
  url = "https://hooks.example/new";
  secret = "s3cret";
  event_types = "ngo_approved" ∷ [];
  enabled = true;
}

abbrev target : WebhookTarget
target = record {
  url = "https://hooks.example/new";
  secret = some "s3cret";
  channel = "webhook:p1";
}

abbrev subscribed : World
subscribed = record world {
  database = record world.database { notification_endpoints = endpoint ∷ [] };
}

abbrev delivered_log : NotificationLog
delivered_log = record {
  id = "l1";
  event_id = some "e21";
  event_type = "ngo_approved";
  channel = "webhook:p1";
  success = true;
  error = none;
  created_at = 4000;
}

abbrev logged : World
logged = record subscribed {
  database = record subscribed.database { notification_logs = delivered_log ∷ [] };
}

remember_delivered-Newest_example :
    (remember_delivered 2 "c" ("a" ∷ "b" ∷ [])
      ≡ drop (length (added "c" ("a" ∷ "b" ∷ [])) - 2) (added "c" ("a" ∷ "b" ∷ [])))
    × (length (remember_delivered 2 "c" ("a" ∷ "b" ∷ [])) ≤ 2)
    × (any (is_text "c") (remember_delivered 2 "c" ("a" ∷ "b" ∷ [])) ≡ true)
remember_delivered-Newest_example =
    remember_delivered-Newest 2 "c" ("a" ∷ "b" ∷ []) (omega arith) (omega arith)

dispatch_notification-Delivered_example :
    Delivered subscribed (dispatch_notification quiet_env supplied event subscribed).1
dispatch_notification-Delivered_example =
    dispatch_notification-Delivered quiet_env supplied event subscribed

notify_sends_nothing_example : (notify quiet_env hooks event subscribed).1.posts ≡ subscribed.posts
notify_sends_nothing_example =
    notify_sends_nothing quiet_env hooks reference_error refl event subscribed

notify_webhook_target_once_example :
    (notify_webhook_target quiet_env supplied event target logged).1.posts ≡ logged.posts
notify_webhook_target_once_example =
    notify_webhook_target_once quiet_env supplied event target logged "e21" refl refl

-- With a supplied id the request is sent, so that the silence above is the error's.
sent_run : length (notify quiet_env supplied event subscribed).1.posts ≡ 1
unfolding notify prisma
sent_run = refl

abbrev signed : Webhooks
signed = record supplied {
  hmac = λ secret payload. "0123456789abcdef0123456789abcdef0123456789abcdef0123456789abcdef";
}

no_id : (id : String) → ok none ≡ ok (some id) → is_empty id ≡ false
no_id id h = absurd (ground (arith, h))

notify_webhook_target-Sent_example :
    Sent quiet_env signed event target "s3cret" refl
      (λ payload. refl)
      (λ n. refl)
      no_id
      subscribed
      (notify_webhook_target quiet_env signed event target subscribed).1
notify_webhook_target-Sent_example =
    notify_webhook_target-Sent quiet_env signed event target "s3cret" refl (λ payload. refl)
      (λ n. refl) no_id subscribed

escape_html-Inert_example : Inert (escape_html "<b>\"NGO\" & 'friends'</b>")
escape_html-Inert_example = escape_html-Inert "<b>\"NGO\" & 'friends'</b>"
