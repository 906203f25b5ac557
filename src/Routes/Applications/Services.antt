-- ===== src/Routes/Applications/Services.antt =====
-- What the application routes call: zod, the Stellar SDK, `notify`, and the mail service.
use streamgive_backend.Prelude.{ℕ, String, Bool, true, false}
use streamgive_backend.Db.{NgoApplication, pending, approved, rejected}
use streamgive_backend.Db.Exec.{Exec, NotificationEvent}
use streamgive_backend.Middleware.AdminAuth.{Crypto}
use streamgive_backend.Notifications.ContactVerification.{Mail}
use streamgive_backend.Routes.Applications.Schema.{Zod}

pub record Services (Key : Type 0) : Type 0 where
  pub zod : Zod
  pub crypto : Crypto Key
  pub is_valid_public_key : String → Bool
  pub to_iso_string : ℕ → String
  pub mail : Mail
  pub notify : NotificationEvent → Exec (Unit {0})

abbrev pub is_pending : NgoApplication → Bool
is_pending application = elim application.status [
  | pending ↦ true
  | approved ↦ false
  | rejected ↦ false
]

-- `status: { in: ['PENDING', 'APPROVED'] }`
abbrev pub is_open : NgoApplication → Bool
is_open application = elim application.status [
  | pending ↦ true
  | approved ↦ true
  | rejected ↦ false
]
