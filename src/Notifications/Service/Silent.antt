-- ===== src/Notifications/Service/Silent.antt =====
-- When no request is sent.
use mathlib.Core.Path.{subst}
use streamgive_backend.Prelude.{
  String, ◌≡◌, refl, sym, arith, ◌∙◌, Bool, true, false, Option, none, some, List, [], ◌∷◌, any,
  if◌then◌else◌, inl, inr, ◌⊎◌,
}
use streamgive_backend.Db.{Database}
use streamgive_backend.Db.Exec.{
  Result, ok, err, Thrown, Env, World, NotificationEvent, prisma, pure, modify, given, ◌>>=◌, query,
}
use streamgive_backend.Db.Keeps.{Relation, Keeps, Keeps-prisma, Keeps-modify, keeps_rules}
use streamgive_backend.Db.Split.{bind-with, catch-with, query-bind}
use streamgive_backend.Notifications.Service.Message.{
  Webhooks, WebhookTarget, WebhookResult, Outcome, event_id, truthy, is_delivered,
}
use streamgive_backend.Notifications.Service.Log.{create_log, find_delivered}
use streamgive_backend.Notifications.Service.Webhook.{
  deliver, notify_webhook_target, notify_each, notify_each-Keeps,
}
use streamgive_backend.Notifications.Service.Notify.{
  notify_targets, load_endpoints, notify_webhook, notify_email, notify_both, record_delivery,
  remember, after_delivery, notify_new, notify,
}

abbrev pub posts_kept : Relation
posts_kept = record {
  holds = λ v w. w.posts ≡ v.posts;
  same = λ w. refl;
  after = λ a b. b ∙ a;
  ticks = λ w. refl;
  rolls = λ v w h. h;
}

module _ (env : Env) where
  pub prisma-posts :
      {A : Type 0} (f : Database → Result A × Database) → Keeps posts_kept (prisma env f)
  prisma-posts f = Keeps-prisma env f (λ w. refl)

  ruleset silent_rules = (keeps_rules, prisma-posts)

  pub create_log-posts :
      (id : Option String) (type channel : String) (outcome : Outcome)
      → Keeps posts_kept (create_log env id type channel outcome)
  unfolding create_log
  create_log-posts id type channel outcome = search silent_rules

  pub find_delivered-posts :
      (id : Option String) (channel : String) → Keeps posts_kept (find_delivered env id channel)
  unfolding find_delivered
  find_delivered-posts none channel = search silent_rules
  find_delivered-posts (some id) channel = search silent_rules depth 10

  module _ (hooks : Webhooks) (e : Thrown) (unbound : hooks.delivery_id ≡ err e) where
    deliver-posts :
        (event : NotificationEvent) (target : WebhookTarget)
        → Keeps posts_kept (deliver env hooks event target)
    unfolding deliver
    deliver-posts event target = rw unbound (record { at = λ w. refl })

    target-posts :
        (event : NotificationEvent) (target : WebhookTarget)
        → Keeps posts_kept (notify_webhook_target env hooks event target)
    unfolding notify_webhook_target
    target-posts event target = search (silent_rules, find_delivered-posts, deliver-posts)

    each-posts :
        (event : NotificationEvent) (targets : List WebhookTarget)
        → Keeps posts_kept (notify_each env hooks event targets)
    each-posts event targets =
        notify_each-Keeps posts_kept env hooks event (target-posts event) targets

    targets-posts :
        (event : NotificationEvent) (b : Bool) (targets : List WebhookTarget)
        → Keeps posts_kept (notify_targets env hooks event b targets)
    unfolding notify_targets
    targets-posts event b [] = search keeps_rules
    targets-posts event b (target ∷ rest) = search (keeps_rules, each-posts)

    webhook-posts : (event : NotificationEvent) → Keeps posts_kept (notify_webhook env hooks event)
    unfolding notify_webhook load_endpoints
    webhook-posts event = search (silent_rules, targets-posts) depth 12

    email-posts : (event : NotificationEvent) → Keeps posts_kept (notify_email env hooks event)
    unfolding notify_email
    email-posts event = search (keeps_rules, create_log-posts)

    remember-posts : (id : String) → Keeps posts_kept (modify (remember env hooks id))
    remember-posts id = Keeps-modify _ (λ w. refl)

    after_delivery-posts :
        (event : NotificationEvent) (id : String) (result : WebhookResult)
        → Keeps posts_kept (after_delivery env hooks event id result)
    unfolding after_delivery record_delivery
    after_delivery-posts event id result =
        search (keeps_rules, remember-posts, create_log-posts) depth 12

    both-posts : (event : NotificationEvent) → Keeps posts_kept (notify_both env hooks event)
    unfolding notify_both
    both-posts event = record {
      at = λ w.
          (email-posts event).at (notify_webhook env hooks event w).1 ∙ (webhook-posts event).at w;
    }

    new-posts : (event : NotificationEvent) → Keeps posts_kept (notify_new env hooks event)
    unfolding notify_new
    new-posts event = search (keeps_rules, both-posts, after_delivery-posts) depth 12

    notify-posts : (event : NotificationEvent) → Keeps posts_kept (notify env hooks event)
    unfolding notify
    notify-posts event = search (keeps_rules, new-posts)

    -- Where reading `deliveryId` throws, `notify` sends no request, whatever the event, the endpoints of
    -- the table, the configured endpoint and the database calls that fail.
    pub notify_sends_nothing :
        (event : NotificationEvent) (w : World) → (notify env hooks event w).1.posts ≡ w.posts
    notify_sends_nothing event w = (notify-posts event).at w

  module _ (hooks : Webhooks) where
    -- The log names a delivery of this event to this channel that succeeded.
    abbrev pub Logged : String → WebhookTarget → World → Type 0
    Logged id target w = any (is_delivered id target.channel) w.database.notification_logs ≡ true

    -- What the look into the log gives, where the delivery is logged: an answer, and no request.
    abbrev Answered : World → Result (Option Bool) × World → Type 0
    Answered w r = (b : Bool) × (r.0 ≡ ok (some b)) × (r.1.posts ≡ w.posts)

    -- The same, before what is thrown is caught.
    abbrev Read : World → Result (Option Bool) × World → Type 0
    Read w r = ((r.0 ≡ ok (some true)) ⊎ ((e : Thrown) × (r.0 ≡ err e))) × (r.1.posts ≡ w.posts)

    find_delivered-Answered :
        (id : String) (target : WebhookTarget) (w : World)
        → Logged id target w
        → Answered w (find_delivered env (some id) target.channel w)
    unfolding find_delivered
    find_delivered-Answered id target w h =
        catch-with (Read w) (Answered w)
          (query env (λ db. any (is_delivered id target.channel) db.notification_logs) >>= λ d.
            pure (if d then some true else none))
          (λ e. pure (some false)) w
          (query-bind env (Read w) (λ db. any (is_delivered id target.channel) db.notification_logs)
            (λ d. pure (if d then some true else none)) w (λ e. (inr (e, refl), refl))
            (rw h (inl refl, refl)))
          (λ a v q. elim q.0 [ inl e ↦ (true, e, q.1) | inr (t, e) ↦ ground (arith, e) ])
          (λ e v q. (false, refl, q.1))

    -- An event with an id whose delivery to a channel is logged as a success is not sent to that channel
    -- again, whether or not the log can be read.
    pub notify_webhook_target_once :
        (event : NotificationEvent) (target : WebhookTarget) (w : World) (id : String)
        → truthy (event_id event) ≡ some id
        → Logged id target w
        → (notify_webhook_target env hooks event target w).1.posts ≡ w.posts
    unfolding notify_webhook_target
    notify_webhook_target_once event target w id named h =
        bind-with (Answered w) (λ r. r.1.posts ≡ w.posts)
          (find_delivered env (truthy (event_id event)) target.channel)
          (λ done. given done (deliver env hooks event target) pure) w
          (subst (λ o. Answered w (find_delivered env o target.channel w)) (sym named)
            (find_delivered-Answered id target w h))
          (λ a v q. let found : a ≡ some q.0 = ground (arith, q.1) in rw found q.2) (λ e v q. q.2)
