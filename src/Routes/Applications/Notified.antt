-- ===== src/Routes/Applications/Notified.antt =====
-- The modelled `notify` keeps the applications, as the theorems on sequences of requests ask.
use streamgive_backend.Prelude.{ap}
use streamgive_backend.Db.Exec.{Env, NotificationEvent}
use streamgive_backend.Db.Keeps.{Keeps}
use streamgive_backend.Notifications.Service.Message.{Webhooks}
use streamgive_backend.Notifications.Service.Notify.{notify}
use streamgive_backend.Notifications.Service.Frame.{notify-Delivered}
use streamgive_backend.Routes.Applications.Evolution.{ApplicationsKept-eq, applications_kept}

pub notify-Kept :
    (env : Env) (hooks : Webhooks) (event : NotificationEvent)
    → Keeps applications_kept (notify env hooks event)
notify-Kept env hooks event = record {
  at = λ w.
      ApplicationsKept-eq w (notify env hooks event w).1
        (ap (λ db. db.applications) ((notify-Delivered env hooks event).at w).database);
}
