-- ===== src/Tests/Links.antt =====
-- The theorems on the links and on submissions, at a stored link and a stored challenge.
use streamgive_backend.Prelude.{
  String, ◌≡◌, ◌≢◌, refl, ap, true, none, some, List, [], ◌∷◌, ◌<>◌, codes, nat_eq, if◌then◌else◌,
  length,
}
use streamgive_backend.Db.{ContactChallenge, ApplicationChallenge}
use streamgive_backend.Db.Exec.{ok, World, NotificationEvent}
use streamgive_backend.Middleware.AdminAuth.{Crypto, matches}
use streamgive_backend.Notifications.ContactVerification.{Mail, hash_token, verify_contact_token}
use streamgive_backend.Notifications.ContactVerification.Once.{
  visit, mailing, LinkUse, use_links, verify_contact_token-once,
}
use streamgive_backend.Notifications.ContactVerification.Accepts.{
  redeemed, verify_contact_token-accepts,
}
use streamgive_backend.Notifications.Service.Notify.{notify}
use streamgive_backend.Notifications.Service.Total.{notify-Total}
use streamgive_backend.Routes.Reply.{replied}
use streamgive_backend.Routes.Applications.Schema.{
  absent, text, Submission, SubmissionBody, parse_submission,
}
use streamgive_backend.Routes.Applications.Services.{Services}
use streamgive_backend.Routes.Applications.Submit.{submit, verify_application_signature}
use streamgive_backend.Routes.Applications.Submit.Accepts.{accepted_row, Valid, submit-accepts}
use streamgive_backend.Routes.Applications.Submit.Authentic.{Authentic, submit-Authentic}
use streamgive_backend.Tests.Admin.{crypto}
use streamgive_backend.Tests.Fixtures.{quiet_env, world}
use streamgive_backend.Tests.Applications.{hooks, application, applied, services}

abbrev link : ContactChallenge
link = record { token_hash = ""; application_id = "a1"; expires_at = 9000 }

abbrev linked : World
linked = record applied { database = record applied.database { contact_challenges = link ∷ [] } }

verify_contact_token-accepts_example : verify_contact_token quiet_env crypto "token" linked ≡ (
  ok true,
  redeemed quiet_env
      (λ n. refl)
      crypto
      (hash_token quiet_env crypto "token")
      "a1"
      5000
      5000
      7
      linked,
)
unfolding hash_token
verify_contact_token-accepts_example =
    verify_contact_token-accepts quiet_env (λ n. refl) crypto "token" link linked refl refl refl
      refl

-- Texts of different lengths have different hashes.
abbrev sized : Crypto String
sized = record crypto {
  utf8 = codes;
  to_hex = λ bytes. if nat_eq (length bytes) 5 then "5" else "4";
}

abbrev sized_link : World
sized_link = record linked {
  database = record linked.database { contact_challenges = record link { token_hash = "5" } ∷ [] };
}

accepted : (verify_contact_token quiet_env sized "token" sized_link).0 ≡ ok true
unfolding hash_token
accepted =
    ap (λ r. r.0)
      (verify_contact_token-accepts quiet_env (λ n. refl) sized "token"
        (record link { token_hash = "5" }) sized_link refl refl refl refl)

abbrev mail : Mail
mail = record {
  api_key = some "key";
  from = some "team@example.org";
  public_api_url = some "https://api.example";
  parse_url = λ s. some (record { protocol = "https:"; hostname = "api.example"; href = s });
  verification_url = λ base token. base.href <> token;
  json = λ from to subject html. html;
}

-- Another link is visited, and a link is sent that draws a token with another hash.
abbrev uses : List LinkUse
uses = visit "other" ∷ mailing application ∷ visit "token" ∷ []

verify_contact_token-once_example :
    (verify_contact_token quiet_env sized "token" (
      use_links quiet_env sized mail uses
        (verify_contact_token quiet_env sized "token" sized_link).1)).0
    ≢ ok true
unfolding hash_token
verify_contact_token-once_example =
    verify_contact_token-once quiet_env sized mail "token" sized_link uses accepted (refl, tt)

abbrev owner : String
owner = "GAAAAAAAAAAAAAAAAAAAAAAAAAAAAAAAAAAAAAAAAAAAAAAAAAAAAAAA"

abbrev body : SubmissionBody
body = record {
  owner_address = text owner;
  name = text "  Wells ";
  description = text "Clean water";
  website = text "wells.example";
  contact_email = text "wells@example.org";
  country = absent;
  challenge = text "c1";
  signature = text "c2ln";
}

abbrev submission : Submission
submission = record {
  application = record {
    owner_address = owner;
    name = "Wells";
    description = "Clean water";
    website = some "https://wells.example";
    contact_email = "wells@example.org";
    country = none;
  };
  challenge = "c1";
  signature = "c2ln";
}

abbrev quiet_services : Services String
quiet_services = record services {
  notify = notify quiet_env (record hooks { delivery_id = ok none });
}

notified : (event : NotificationEvent) (w : World) → (quiet_services.notify event w).0 ≡ ok tt
notified event w =
    ((notify-Total quiet_env (record hooks { delivery_id = ok none }) none refl event).returns w).1

abbrev challenge : ApplicationChallenge
challenge = record { challenge = "c1"; owner_address = owner; expires_at = 9000 }

abbrev challenged : World
challenged = record world {
  database = record world.database { application_challenges = challenge ∷ [] };
}

parsed : parse_submission quiet_services.zod body ≡ some submission
unfolding parse_submission
parsed = refl

valid : Valid quiet_env (λ n. refl) quiet_services notified submission challenge challenged
unfolding verify_application_signature matches
valid = record {
  found = refl;
  owner = refl;
  early = refl;
  once = refl;
  signed = refl;
  unblocked = refl;
  fresh = refl;
}

submitted :
    (submit quiet_env quiet_services body challenged).0
    ≡ ok (replied 201 (accepted_row "uuid" 5000 submission.application))
submitted =
    submit-accepts quiet_env (λ n. refl) quiet_services notified submission challenge challenged
      body parsed valid

submit-Authentic_example :
    (s : Submission) × (parse_submission quiet_services.zod body ≡ some s)
    × Authentic quiet_env quiet_services s challenged
submit-Authentic_example =
    submit-Authentic quiet_env quiet_services body challenged 201
      (accepted_row "uuid" 5000 submission.application) submitted
