-- ===== src/Tests/Applications.antt =====
-- The theorems on applications at a table with one of them, and requests that review it twice.
use streamgive_backend.Prelude.{
  String, ◌≡◌, refl, true, none, some, List, [], ◌∷◌, arith, inl, find_first, count_where, length,
}
use streamgive_backend.Db.{NgoApplication, pending, approved, rejected}
use streamgive_backend.Db.Exec.{ok, World}
use streamgive_backend.Notifications.ContactVerification.{Mail}
use streamgive_backend.Notifications.Service.Message.{Webhooks}
use streamgive_backend.Notifications.Service.Notify.{notify}
use streamgive_backend.Routes.Applications.Schema.{absent, text}
use streamgive_backend.Routes.Applications.Services.{Services}
use streamgive_backend.Routes.Applications.Submit.{has_id}
use streamgive_backend.Routes.Applications.Read.{has_status, group_by_status, stats_body}
use streamgive_backend.Routes.Applications.Read.Stats.{stats_body-counts}
use streamgive_backend.Routes.Applications.Evolution.{AppEvolves, Sound}
use streamgive_backend.Routes.Applications.Notified.{notify-Kept}
use streamgive_backend.Routes.Applications.Sequences.{
  Request, stats_request, detail_request, approve_request, reject_request, handle_all,
  handle_all-evolves, handle_all-Sound,
}
use streamgive_backend.Tests.Admin.{crypto}
use streamgive_backend.Tests.Fixtures.{quiet_env, world}

abbrev pub hooks : Webhooks
hooks = record {
  delivery_id = ok none;
  url = some "https://hooks.example";
  secret = none;
  hmac = λ secret payload. "";
  stringify = λ event. "{}";
}

abbrev mail : Mail
mail = record {
  api_key = none;
  from = none;
  public_api_url = none;
  parse_url = λ s. none;
  verification_url = λ base token. token;
  json = λ from to subject html. html;
}

abbrev pub services : Services String
services = record {
  zod = record { is_email = λ s. true; is_url = λ s. true; is_uuid = λ s. true };
  crypto = crypto;
  is_valid_public_key = λ s. true;
  to_iso_string = λ n. "";
  mail = mail;
  notify = notify quiet_env hooks;
}

abbrev newest_first : List NgoApplication → List NgoApplication
newest_first rows = rows

abbrev pub application : NgoApplication
application = record {
  id = "a1";
  owner_address = "GOWNER";
  name = "Wells";
  description = "Clean water";
  website = none;
  contact_email = "wells@example.org";
  country = none;
  status = pending;
  review_note = none;
  reviewed_by = none;
  reviewed_at = none;
  email_verified_at = some 4000;
  created_at = 3000;
  updated_at = 4000;
}

abbrev pub applied : World
applied = record world { database = record world.database { applications = application ∷ [] } }

-- An approval, a rejection that comes too late, and two reads.
abbrev requests : List Request
requests =
    approve_request (some "GADMIN") (text "a1") (text "Welcome")
    ∷ reject_request (some "GOTHER") (text "a1") absent
    ∷ stats_request
    ∷ detail_request (text "a1")
    ∷ []

abbrev after_requests : List NgoApplication
after_requests = (handle_all quiet_env services newest_first requests applied).database.applications

handle_all-evolves_example :
    (b : NgoApplication) × (find_first (has_id "a1") after_requests ≡ some b)
    × AppEvolves application b
handle_all-evolves_example =
    handle_all-evolves quiet_env services newest_first (notify-Kept quiet_env hooks) requests
      applied "a1" application refl

applied-Sound : Sound (application ∷ [])
applied-Sound = record {
  ids = λ id. ground arith;
  owners = λ o. ground arith;
  reviews = (inl refl, tt);
}

handle_all-Sound_example : Sound after_requests
handle_all-Sound_example =
    handle_all-Sound quiet_env services newest_first (notify-Kept quiet_env hooks) requests applied
      applied-Sound

abbrev three : List NgoApplication
three =
    application
    ∷ record application { id = "a2"; status = rejected }
    ∷ record application { id = "a3" }
    ∷ []

stats_body-counts_example :
    ((stats_body (group_by_status three)).counts.pending ≡ count_where (has_status pending) three)
    × ((stats_body (group_by_status three)).counts.approved
        ≡ count_where (has_status approved) three)
    × ((stats_body (group_by_status three)).counts.rejected
        ≡ count_where (has_status rejected) three)
    × ((stats_body (group_by_status three)).total ≡ length three)
stats_body-counts_example = stats_body-counts three
