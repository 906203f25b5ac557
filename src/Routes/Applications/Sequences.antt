-- ===== src/Routes/Applications/Sequences.antt =====
-- Requests to the application routes, one after the other.
use streamgive_backend.Prelude.{String, ◌≡◌, refl, Option, some, List, [], ◌∷◌, find_first}
use streamgive_backend.Db.{NgoApplication}
use streamgive_backend.Db.Exec.{Env, World, NotificationEvent, ReviewStatus}
use streamgive_backend.Db.Keeps.{Keeps}
use streamgive_backend.Routes.Applications.Schema.{Field, SubmissionBody}
use streamgive_backend.Routes.Applications.Services.{Services}
use streamgive_backend.Routes.Applications.Submit.{has_id, issue_challenge, submit}
use streamgive_backend.Routes.Applications.Review.{approve, reject}
use streamgive_backend.Routes.Applications.Read.{
  status, stats, list, detail, verify_contact_email, resend_contact_email,
}
use streamgive_backend.Routes.Applications.Evolution.{
  AppEvolves, Sound, ApplicationsKept, ApplicationsKept-eq, ApplicationsKept-trans,
  applications_kept,
}
use streamgive_backend.Routes.Applications.Submit.Kept.{issue_challenge-Kept, submit-Kept}
use streamgive_backend.Routes.Applications.Review.Kept.{review-Kept}
use streamgive_backend.Routes.Applications.Read.Kept.{
  status-Kept, stats-Kept, list-Kept, detail-Kept, verify_contact_email-Kept,
  resend_contact_email-Kept,
}

-- A request to one of the routes of `createNgoApplicationsRouter`.
pub data Request : Type 0 where
  challenge_request : (owner_address : Field) → Request
  submit_request : (body : SubmissionBody) → Request
  verify_request : (token : Field) → Request
  resend_request : (id : Field) → Request
  status_request : (owner_address : Field) → Request
  stats_request : Request
  list_request : (status limit offset : Field) → Request
  detail_request : (id : Field) → Request
  approve_request : (address : Option String) (id review_note : Field) → Request
  reject_request : (address : Option String) (id review_note : Field) → Request

module _ (env : Env) {Key : Type 0} (services : Services Key)
    (newest_first : List NgoApplication → List NgoApplication) where
  -- The world after the route has answered, or has thrown.
  unfoldable pub handle : Request → World → World
  handle (challenge_request field) w = (issue_challenge env services field w).1
  handle (submit_request body) w = (submit env services body w).1
  handle (verify_request token) w = (verify_contact_email env services newest_first token w).1
  handle (resend_request id) w = (resend_contact_email env services newest_first id w).1
  handle (status_request field) w = (status env services newest_first field w).1
  handle stats_request w = (stats env services newest_first w).1
  handle (list_request s limit offset) w = (list env services newest_first s limit offset w).1
  handle (detail_request id) w = (detail env services newest_first id w).1
  handle (approve_request address id remark) w = (approve env services address id remark w).1
  handle (reject_request address id remark) w = (reject env services address id remark w).1

  unfoldable pub handle_all : List Request → World → World
  unfolding handle
  handle_all [] w = w
  handle_all (request ∷ requests) w = handle_all requests (handle request w)

  module _
      (notify_kept : (n : NotificationEvent) → Keeps applications_kept (services.notify n)) where
    handle-Kept : (request : Request) (w : World) → ApplicationsKept w (handle request w)
    unfolding handle
    handle-Kept (challenge_request field) w = (issue_challenge-Kept env services field).at w
    handle-Kept (submit_request body) w = (submit-Kept env services notify_kept body).at w
    handle-Kept (verify_request token) w =
        (verify_contact_email-Kept env services newest_first token).at w
    handle-Kept (resend_request id) w =
        (resend_contact_email-Kept env services newest_first id).at w
    handle-Kept (status_request field) w = (status-Kept env services newest_first field).at w
    handle-Kept stats_request w = (stats-Kept env services newest_first).at w
    handle-Kept (list_request s limit offset) w =
        (list-Kept env services newest_first s limit offset).at w
    handle-Kept (detail_request id) w = (detail-Kept env services newest_first id).at w
    handle-Kept (approve_request address id remark) w =
        (review-Kept env services notify_kept ReviewStatus.approved address id remark).at w
    handle-Kept (reject_request address id remark) w =
        (review-Kept env services notify_kept ReviewStatus.rejected address id remark).at w

    handle_all-Kept :
        (requests : List Request) (w : World) → ApplicationsKept w (handle_all requests w)
    unfolding handle_all
    handle_all-Kept [] w = ApplicationsKept-eq w w refl
    handle_all-Kept (request ∷ requests) w =
        ApplicationsKept-trans (handle-Kept request w) (handle_all-Kept requests (handle request w))

    -- Where `notify` keeps the applications, an application that is there before any sequence of
    -- requests is there after it, under the same id; what was submitted (owner, name, description,
    -- website, email, country, time of creation) is unchanged, and unless it was pending before, its
    -- status, review note, reviewer and time of review are unchanged too. Requests that are refused,
    -- database calls that fail and handlers that throw are among those covered.
    pub handle_all-evolves :
        (requests : List Request) (w : World) (id : String) (a : NgoApplication)
        → find_first (has_id id) w.database.applications ≡ some a
        → (b : NgoApplication) × (find_first
              (has_id id)
              (handle_all requests w).database.applications
            ≡ some b)
          × AppEvolves a b
    handle_all-evolves requests w id a h = (handle_all-Kept requests w).rows id a h

    -- Where `notify` keeps the applications, every sequence of requests, with whatever database calls
    -- fail, keeps the table sound: ids are unique, no two applications that are pending or approved
    -- share an owner address, and every application that is not pending has a verified contact email,
    -- a reviewer and a time of review.
    pub handle_all-Sound :
        (requests : List Request) (w : World)
        → Sound w.database.applications
        → Sound (handle_all requests w).database.applications
    handle_all-Sound requests w s = (handle_all-Kept requests w).sound s
