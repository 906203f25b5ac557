-- ===== src/Notifications/Service/Notify.antt =====
-- `notify` and `dispatchNotification`: src/notifications/service.ts.
use streamgive_backend.Prelude.{
  String, Bool, true, false, Option, none, some, List, [], ◌∷◌, map, any, select, if◌then◌else◌,
  ◌<>◌,
}
use streamgive_backend.Db.{NotificationEndpoint}
use streamgive_backend.Db.Exec.{
  Env, Exec, World, NotificationEvent, pure, ◌>>=◌, ◌>>◌, catch, gets, modify, query, given,
}
use streamgive_backend.Notifications.Service.Message.{
  Webhooks, max_delivered_event_ids, truthy, event_type, event_id, is_text, remember_delivered,
  WebhookTarget, WebhookResult,
}
use streamgive_backend.Notifications.Service.Log.{create_log}
use streamgive_backend.Notifications.Service.Webhook.{notify_each}

module _ (env : Env) (hooks : Webhooks) where
  abbrev pub is_subscribed : NotificationEvent → NotificationEndpoint → Bool
  is_subscribed event endpoint = any (is_text (event_type event)) endpoint.event_types

  abbrev pub target_of : NotificationEndpoint → WebhookTarget
  target_of endpoint = record {
    url = endpoint.url;
    secret = some endpoint.secret;
    channel = "webhook:" <> endpoint.id;
  }

  abbrev pub is_enabled : NotificationEndpoint → Bool
  is_enabled endpoint = endpoint.enabled

  -- The endpoint of the configuration is used where the table has none.
  unfoldable pub targets : NotificationEvent → List NotificationEndpoint → List WebhookTarget
  targets event (endpoint ∷ rest) = map target_of (select (is_subscribed event) (endpoint ∷ rest))
  targets event [] = elim (truthy hooks.url) [
    | none ↦ []
    | some url ↦ record { url = url; secret = hooks.secret; channel = "webhook" } ∷ []
  ]

  abbrev pub is_empty : List NotificationEndpoint → Bool
  is_empty [] = true
  is_empty (endpoint ∷ rest) = false

  unfoldable pub notify_targets : NotificationEvent → Bool → List WebhookTarget → Exec WebhookResult
  unfolding notify_each
  notify_targets event unconfigured [] =
      pure (record { success = true; record_noop = unconfigured })
  notify_targets event unconfigured (target ∷ rest) = do
    success ← notify_each env hooks event (target ∷ rest)
    pure (record { success = success; record_noop = false })

  unfoldable pub load_endpoints : Exec (Option (List NotificationEndpoint))
  load_endpoints =
      catch
        (do
          endpoints ← query env (λ db. select is_enabled db.notification_endpoints)
          pure (some endpoints))
        (λ e. pure none)

  unfoldable pub notify_webhook : NotificationEvent → Exec WebhookResult
  unfolding load_endpoints notify_targets targets
  notify_webhook event = do
    loaded ← load_endpoints
    given loaded (pure (record { success = false; record_noop = false }))
        (λ endpoints. notify_targets event (is_empty endpoints) (targets event endpoints))

  -- The stub of an email provider only writes the log.
  unfoldable pub notify_email : NotificationEvent → Exec Unit
  unfolding create_log
  notify_email event =
      catch
        (create_log env none (event_type event) "email" (record { success = true; problem = none }))
        (λ e. pure tt)

  -- `Promise.all` of the two, of which the second never throws.
  unfoldable pub notify_both : NotificationEvent → Exec WebhookResult
  unfolding notify_webhook notify_email
  notify_both event w =
      let (result, v) = notify_webhook event w in (result, (notify_email event v).1)

  unfoldable pub record_delivery : NotificationEvent → String → Exec Unit
  unfolding create_log
  record_delivery event id =
      catch
        (create_log env (some id) (event_type event) "webhook"
          (record { success = true; problem = none }))
        (λ e. pure tt)

  abbrev pub remember : String → World → World
  remember id w = record w {
    delivered_event_ids = remember_delivered max_delivered_event_ids id w.delivered_event_ids;
  }

  unfoldable pub after_delivery : NotificationEvent → String → WebhookResult → Exec Unit
  unfolding record_delivery remember_delivered
  after_delivery event id result =
      if result.success
      then modify (remember id)
        >> (if result.record_noop then record_delivery event id else pure tt)
      else pure tt

  unfoldable pub notify_new : NotificationEvent → Exec Unit
  unfolding notify_both after_delivery
  notify_new event = do
    result ← notify_both event
    given (truthy (event_id event)) (pure tt) (λ id. after_delivery event id result)

  abbrev pub is_remembered : Option String → World → Bool
  is_remembered none w = false
  is_remembered (some id) w = any (is_text id) w.delivered_event_ids

  unfoldable pub notify : NotificationEvent → Exec Unit
  unfolding notify_new
  notify event = do
    seen ← gets (is_remembered (truthy (event_id event)))
    if seen then pure tt else notify_new event

  -- What is thrown is logged.
  unfoldable pub dispatch_notification : NotificationEvent → Exec Unit
  unfolding notify
  dispatch_notification event = catch (notify event) (λ e. pure tt)
