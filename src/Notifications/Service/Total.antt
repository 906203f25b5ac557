-- ===== src/Notifications/Service/Total.antt =====
-- With a delivery id that is declared, `notify` never throws.
use streamgive_backend.Prelude.{
  String, ◌≡◌, refl, Bool, true, ◌&&◌, Option, none, some, List, [], ◌∷◌, arith,
}
use streamgive_backend.Db.Exec.{Result, ok, err, Env, World, NotificationEvent, lift}
use streamgive_backend.Db.Total.{Total, Returned, total_rules}
use streamgive_backend.Notifications.Service.Message.{
  Webhooks, WebhookTarget, WebhookResult, Outcome,
}
use streamgive_backend.Notifications.Service.Log.{find_delivered, write_log}
use streamgive_backend.Notifications.Service.Webhook.{
  post_event, deliver_as, deliver_at, deliver, notify_webhook_target, notify_each,
}
use streamgive_backend.Notifications.Service.Notify.{
  notify_targets, load_endpoints, notify_webhook, notify_both, record_delivery, after_delivery,
  notify_new, notify,
}

module _ (env : Env) (hooks : Webhooks) (supplied : Option String)
    (declared : hooks.delivery_id ≡ ok supplied) (event : NotificationEvent) where
  lift-Total : Total (lift hooks.delivery_id)
  lift-Total = record { returns = λ w. (supplied, declared) }

  find_delivered-Total :
      (id : Option String) (channel : String) → Total (find_delivered env id channel)
  unfolding find_delivered
  find_delivered-Total none channel = search total_rules
  find_delivered-Total (some id) channel = search total_rules

  write_log-Total :
      (channel : String) (outcome : Outcome) → Total (write_log env event channel outcome)
  unfolding write_log
  write_log-Total channel outcome = search total_rules

  deliver-Total : (target : WebhookTarget) → Total (deliver env hooks event target)
  unfolding deliver deliver_at deliver_as post_event
  deliver-Total target = search (total_rules, lift-Total, write_log-Total) depth 16

  notify_webhook_target-Total :
      (target : WebhookTarget) → Total (notify_webhook_target env hooks event target)
  unfolding notify_webhook_target
  notify_webhook_target-Total target =
      search (total_rules, find_delivered-Total, deliver-Total) depth 10

  notify_each-Total : (targets : List WebhookTarget) → Total (notify_each env hooks event targets)
  unfolding notify_each
  notify_each-Total [] = record { returns = λ w. (true, refl) }
  notify_each-Total (target ∷ targets) = record {
    returns = λ w.
        let v = (notify_webhook_target env hooks event target w).1 in
        both (notify_webhook_target env hooks event target w)
          (notify_each env hooks event targets v) ((notify_webhook_target-Total target).returns w)
          ((notify_each-Total targets).returns v);
  }
    where
      both :
          (first rest : Result Bool × World)
          → Returned first
          → Returned rest
          → Returned (elim first.0 as (λ _. Result Bool × World) [
            | err e ↦ (err e, rest.1)
            | ok a ↦ elim rest.0 as (λ _. Result Bool × World) [
              | err e ↦ (err e, rest.1)
              | ok b ↦ (ok (a && b), rest.1)
            ]
          ])
      both first rest (a, p) (b, q) = (a && b, ground (arith, p, q))

  notify_targets-Total :
      (unconfigured : Bool) (targets : List WebhookTarget)
      → Total (notify_targets env hooks event unconfigured targets)
  unfolding notify_targets
  notify_targets-Total unconfigured [] = search total_rules
  notify_targets-Total unconfigured (target ∷ targets) =
      search (total_rules, notify_each-Total) depth 10

  notify_webhook-Total : Total (notify_webhook env hooks event)
  unfolding notify_webhook load_endpoints
  notify_webhook-Total = search (total_rules, notify_targets-Total) depth 12

  notify_both-Total : Total (notify_both env hooks event)
  unfolding notify_both
  notify_both-Total = record { returns = λ w. notify_webhook-Total.returns w }

  after_delivery-Total :
      (id : String) (result : WebhookResult) → Total (after_delivery env hooks event id result)
  unfolding after_delivery record_delivery
  after_delivery-Total id result = search total_rules depth 10

  -- Whichever database calls fail.
  pub notify-Total : Total (notify env hooks event)
  unfolding notify notify_new
  notify-Total = search (total_rules, notify_both-Total, after_delivery-Total) depth 12
