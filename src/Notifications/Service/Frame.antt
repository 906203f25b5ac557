-- ===== src/Notifications/Service/Frame.antt =====
-- What the delivery of a notification can change, and what it cannot.
use streamgive_backend.Prelude.{
  ℕ, ◌≤◌, String, ◌≡◌, refl, sym, ap, Bool-cases, inl, inr, ◌++◌, ◌∙◌, Bool, Option, none, some,
  List, [], ◌∷◌, length, if◌then◌else◌,
}
use streamgive_backend.Db.{Database}
use streamgive_backend.Db.Exec.{
  Result, ok, err, unique_violation, Env, World, Post, NotificationEvent, prisma, send_request,
  modify, rollback,
}
use streamgive_backend.Db.Keeps.{Relation, Keeps, Keeps-prisma, Keeps-modify, keeps_rules}
use streamgive_backend.Notifications.Service.Message.{
  Webhooks, WebhookTarget, WebhookResult, Outcome, max_delivered_event_ids, taken, new_log,
}
use streamgive_backend.Notifications.Service.Log.{
  create_log, upsert_log, write_log, find_delivered, record_notification_delivery,
}
use streamgive_backend.Notifications.Service.Webhook.{
  post_event, deliver, deliver_at, deliver_as, notify_webhook_target, notify_each,
  notify_each-Keeps,
}
use streamgive_backend.Notifications.Service.Notify.{
  notify_targets, load_endpoints, notify_webhook, notify_email, notify_both, record_delivery,
  remember, after_delivery, notify_new, notify, dispatch_notification,
}
use streamgive_backend.Notifications.Service.Remembered.{remember_delivered-bounded}

-- Of the database only the notification log may differ; the indexer's position and the events handed to
-- `dispatchNotification` are the same, and the set of delivered ids stays within its bound.
pub record Delivered (v w : World) : Type 0 where
  pub database : w.database ≡ record v.database { notification_logs = w.database.notification_logs }
  pub last_processed_ledger : w.last_processed_ledger ≡ v.last_processed_ledger
  pub last_processed_event_id : w.last_processed_event_id ≡ v.last_processed_event_id
  pub dispatched : w.dispatched ≡ v.dispatched
  pub bounded :
      length v.delivered_event_ids ≤ max_delivered_event_ids
      → length w.delivered_event_ids ≤ max_delivered_event_ids

pub Delivered-same :
    (v w : World)
    → w.database ≡ v.database
    → w.last_processed_ledger ≡ v.last_processed_ledger
    → w.last_processed_event_id ≡ v.last_processed_event_id
    → w.dispatched ≡ v.dispatched
    → w.delivered_event_ids ≡ v.delivered_event_ids
    → Delivered v w
Delivered-same v w d l i s b = record {
  database =
      d
      ∙ ap {A = Database} (λ x. record v.database { notification_logs = x.notification_logs })
          (sym d);
  last_processed_ledger = l;
  last_processed_event_id = i;
  dispatched = s;
  bounded = λ h. rw b h;
}

pub Delivered-after : {u v w : World} → Delivered u v → Delivered v w → Delivered u w
Delivered-after {u} {v} {w} a b = record {
  database =
      b.database
      ∙ ap {A = Database} (λ x. record x { notification_logs = w.database.notification_logs })
          a.database;
  last_processed_ledger = b.last_processed_ledger ∙ a.last_processed_ledger;
  last_processed_event_id = b.last_processed_event_id ∙ a.last_processed_event_id;
  dispatched = b.dispatched ∙ a.dispatched;
  bounded = λ h. b.bounded (a.bounded h);
}

pub Delivered-rolls : (v w : World) → Delivered v w → Delivered v (rollback v w)
Delivered-rolls v w h = record {
  database =
      ap {A = Database} (λ x. record v.database { dead_letters = x.dead_letters }) h.database;
  last_processed_ledger = h.last_processed_ledger;
  last_processed_event_id = h.last_processed_event_id;
  dispatched = h.dispatched;
  bounded = h.bounded;
}

abbrev pub delivered : Relation
delivered = record {
  holds = Delivered;
  same = λ w. Delivered-same w w refl refl refl refl refl;
  after = Delivered-after;
  ticks = λ w. Delivered-same w _ refl refl refl refl refl;
  rolls = Delivered-rolls;
}

module _ (env : Env) where
  Delivered-prisma :
      {A : Type 0} (f : Database → Result A × Database)
      → ((db : Database) → (f db).1 ≡ record db { notification_logs = (f db).1.notification_logs })
      → Keeps delivered (prisma env f)
  Delivered-prisma f h = Keeps-prisma env f (λ w. record {
    database = h w.database;
    last_processed_ledger = refl;
    last_processed_event_id = refl;
    dispatched = refl;
    bounded = λ b. b;
  })

  send_request-Delivered : (post : Post) → Keeps delivered (send_request env post)
  send_request-Delivered post = record { at = λ w. Delivered-same w _ refl refl refl refl refl }

  ruleset delivered_rules = (keeps_rules, Delivered-prisma, send_request-Delivered)

  create_log-Delivered :
      (id : Option String) (type channel : String) (outcome : Outcome)
      → Keeps delivered (create_log env id type channel outcome)
  unfolding create_log
  create_log-Delivered id type channel outcome = search (keeps_rules, created)
    where
      created :
          (n : ℕ)
          → Keeps delivered (
              prisma env (λ db.
                if taken id channel db.notification_logs then (err unique_violation, db) else (
                  ok tt,
                  record db {
                    notification_logs =
                        db.notification_logs
                        ++ new_log id type channel outcome (env.uuid n) (env.now n) ∷ [];
                  },
                )))
      created n = Delivered-prisma _ (λ db.
          elim (Bool-cases (taken id channel db.notification_logs)) [
            | inl t ↦ rw t refl
            | inr f ↦ rw f refl
          ])

  upsert_log-Delivered :
      (id type channel : String) (outcome : Outcome)
      → Keeps delivered (upsert_log env id type channel outcome)
  unfolding upsert_log
  upsert_log-Delivered id type channel outcome = search delivered_rules

  write_log-Delivered :
      (event : NotificationEvent) (channel : String) (outcome : Outcome)
      → Keeps delivered (write_log env event channel outcome)
  unfolding write_log
  write_log-Delivered event channel outcome =
      search (keeps_rules, create_log-Delivered, upsert_log-Delivered)

  find_delivered-Delivered :
      (id : Option String) (channel : String) → Keeps delivered (find_delivered env id channel)
  unfolding find_delivered
  find_delivered-Delivered none channel = search keeps_rules
  find_delivered-Delivered (some id) channel = search delivered_rules depth 10

  count-Delivered : (success : Bool) → Keeps delivered (record_notification_delivery env success)
  unfolding record_notification_delivery
  count-Delivered success = Keeps-modify _ (λ w. Delivered-same w _ refl refl refl refl refl)

  module _ (hooks : Webhooks) where
    post_event-Delivered : (post : Post) → Keeps delivered (post_event env hooks post)
    unfolding post_event
    post_event-Delivered post = search delivered_rules

    deliver-Delivered :
        (event : NotificationEvent) (target : WebhookTarget)
        → Keeps delivered (deliver env hooks event target)
    unfolding deliver deliver_at deliver_as
    deliver-Delivered event target =
        search (keeps_rules, post_event-Delivered, count-Delivered, write_log-Delivered) depth 16

    target-Delivered :
        (event : NotificationEvent) (target : WebhookTarget)
        → Keeps delivered (notify_webhook_target env hooks event target)
    unfolding notify_webhook_target
    target-Delivered event target =
        search (keeps_rules, find_delivered-Delivered, deliver-Delivered)

    each-Delivered :
        (event : NotificationEvent) (targets : List WebhookTarget)
        → Keeps delivered (notify_each env hooks event targets)
    each-Delivered event targets =
        notify_each-Keeps delivered env hooks event (target-Delivered event) targets

    targets-Delivered :
        (event : NotificationEvent) (b : Bool) (targets : List WebhookTarget)
        → Keeps delivered (notify_targets env hooks event b targets)
    unfolding notify_targets
    targets-Delivered event b [] = search keeps_rules
    targets-Delivered event b (target ∷ rest) = search (keeps_rules, each-Delivered)

    load-Delivered : Keeps delivered (load_endpoints env hooks)
    unfolding load_endpoints
    load-Delivered = search delivered_rules depth 10

    webhook-Delivered :
        (event : NotificationEvent) → Keeps delivered (notify_webhook env hooks event)
    unfolding notify_webhook
    webhook-Delivered event = search (keeps_rules, load-Delivered, targets-Delivered)

    email-Delivered : (event : NotificationEvent) → Keeps delivered (notify_email env hooks event)
    unfolding notify_email
    email-Delivered event = search (keeps_rules, create_log-Delivered)

    remember-Delivered : (id : String) → Keeps delivered (modify (remember env hooks id))
    remember-Delivered id = Keeps-modify _ (λ w. record {
      database = refl;
      last_processed_ledger = refl;
      last_processed_event_id = refl;
      dispatched = refl;
      bounded = λ h. remember_delivered-bounded max_delivered_event_ids id w.delivered_event_ids;
    })

    record_delivery-Delivered :
        (event : NotificationEvent) (id : String)
        → Keeps delivered (record_delivery env hooks event id)
    unfolding record_delivery
    record_delivery-Delivered event id = search (keeps_rules, create_log-Delivered)

    after_delivery-Delivered :
        (event : NotificationEvent) (id : String) (result : WebhookResult)
        → Keeps delivered (after_delivery env hooks event id result)
    unfolding after_delivery
    after_delivery-Delivered event id result =
        search (keeps_rules, remember-Delivered, record_delivery-Delivered) depth 10

    both-Delivered : (event : NotificationEvent) → Keeps delivered (notify_both env hooks event)
    unfolding notify_both
    both-Delivered event = record {
      at = λ w.
          Delivered-after ((webhook-Delivered event).at w)
            ((email-Delivered event).at (notify_webhook env hooks event w).1);
    }

    new-Delivered : (event : NotificationEvent) → Keeps delivered (notify_new env hooks event)
    unfolding notify_new
    new-Delivered event = search (keeps_rules, both-Delivered, after_delivery-Delivered) depth 12

    pub notify-Delivered : (event : NotificationEvent) → Keeps delivered (notify env hooks event)
    unfolding notify
    notify-Delivered event = search (keeps_rules, new-Delivered)

    -- The handling of an event, whichever database calls and requests fail, changes no table of the
    -- database but the notification log, leaves the indexer's position and the dispatched events alone,
    -- and keeps the set of delivered ids within ten thousand.
    pub dispatch_notification-Delivered :
        (event : NotificationEvent) (w : World)
        → Delivered w (dispatch_notification env hooks event w).1
    unfolding dispatch_notification
    dispatch_notification-Delivered event w = caught.at w
      where
        caught : Keeps delivered (dispatch_notification env hooks event)
        caught = search (keeps_rules, notify-Delivered)
