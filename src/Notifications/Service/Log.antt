-- ===== src/Notifications/Service/Log.antt =====
-- The rows of the notification log that src/notifications/service.ts reads and writes.
use streamgive_backend.Prelude.{
  ◌+◌, String, Bool, true, false, Option, none, some, [], ◌∷◌, ◌++◌, any, update_where,
  if◌then◌else◌,
}
use streamgive_backend.Db.Exec.{
  ok, err, Env, Exec, NotificationEvent, pure, ◌>>=◌, catch, gets, modify, prisma, query,
  unique_violation, given,
}
use streamgive_backend.Notifications.Service.Message.{
  truthy, event_type, event_id, Outcome, has_event_channel, is_delivered, update_log, taken,
  new_log,
}

module _ (env : Env) where
  -- `notificationLog.create`
  unfoldable pub create_log : Option String → String → String → Outcome → Exec Unit
  create_log id type channel outcome = do
    n ← gets (λ w. w.calls)
    prisma env λ db. if taken id channel db.notification_logs then (err unique_violation, db) else (
      ok tt,
      record db {
        notification_logs =
            db.notification_logs ++ new_log id type channel outcome (env.uuid n) (env.now n) ∷ [];
      },
    )

  -- `notificationLog.upsert`
  unfoldable pub upsert_log : String → String → String → Outcome → Exec Unit
  upsert_log id type channel outcome = do
    n ← gets (λ w. w.calls)
    prisma env λ db. (
      ok tt,
      record db {
        notification_logs =
            if any (has_event_channel id channel) db.notification_logs
            then update_where (has_event_channel id channel) (update_log outcome)
                db.notification_logs
            else db.notification_logs
              ++ new_log (some id) type channel outcome (env.uuid n) (env.now n) ∷ [];
      },
    )

  -- A row of the log whose writing fails is given up.
  unfoldable pub write_log : NotificationEvent → String → Outcome → Exec Unit
  unfolding create_log upsert_log
  write_log event channel outcome =
      catch
        (given (truthy (event_id event))
          (create_log (event_id event) (event_type event) channel outcome)
          (λ id. upsert_log id (event_type event) channel outcome))
        (λ e. pure tt)

  -- `some b`: nothing is to be sent, and `b` is the answer.
  unfoldable pub find_delivered : Option String → String → Exec (Option Bool)
  find_delivered none channel = pure none
  find_delivered (some id) channel =
      catch
        (do
          delivered ← query env (λ db. any (is_delivered id channel) db.notification_logs)
          pure (if delivered then some true else none))
        (λ e. pure (some false))

  unfoldable pub record_notification_delivery : Bool → Exec Unit
  record_notification_delivery success = modify λ w. record w {
    metrics = record w.metrics {
      deliveries_succeeded = w.metrics.deliveries_succeeded + (if success then 1 else 0);
      deliveries_failed = w.metrics.deliveries_failed + (if success then 0 else 1);
    };
  }
