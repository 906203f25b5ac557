-- ===== src/Routes/Applications/Review.antt =====
-- The approval and the rejection of an application by an admin.
pub mod Kept
use streamgive_backend.Prelude.{
  ℕ, String, Bool, true, false, not, ◌&&◌, Option, none, some, List, ◌==◌, any, find_first,
  update_where, if◌then◌else◌,
}
use streamgive_backend.Db.{NgoApplication, ApplicationStatus}
use streamgive_backend.Db.Exec.{
  Result, ok, err, Thrown, error, object, thrown_value, ReviewStatus, application_reviewed, Env,
  Exec, pure, throw, ◌>>=◌, ◌>>◌, catch, gets, clock, prisma, query, record_not_found, given,
}
use streamgive_backend.Routes.Reply.{Reply, refused, replied}
use streamgive_backend.Routes.Applications.Schema.{Field, parse_uuid, parse_review_note}
use streamgive_backend.Routes.Applications.Services.{Services, is_pending}
use streamgive_backend.Routes.Applications.Submit.{has_id}

abbrev pub status_of : ReviewStatus → ApplicationStatus
status_of ReviewStatus.approved = ApplicationStatus.approved
status_of ReviewStatus.rejected = ApplicationStatus.rejected

-- An `undefined` note leaves the column alone.
abbrev pub review_row :
    ReviewStatus → Option String → String → ℕ → ℕ → NgoApplication → NgoApplication
review_row status remark reviewed_by reviewed_at updated_at row = record row {
  status = status_of status;
  review_note = elim remark [ none ↦ row.review_note | some text ↦ some text ];
  reviewed_by = some reviewed_by;
  reviewed_at = some reviewed_at;
  updated_at = updated_at;
}

-- `...(reviewed.reviewNote ? { reviewNote } : {})`
abbrev note_of : NgoApplication → Option String
note_of row = elim row.review_note [ none ↦ none | some s ↦ if s == "" then none else some s ]

-- `(err as { code?: string }).code === 'P2025'`
abbrev pub is_record_not_found : Thrown → Bool
is_record_not_found (error class name message none) = false
is_record_not_found (error class name message (some code)) = code == "P2025"
is_record_not_found (object message) = false
is_record_not_found (thrown_value text) = false

abbrev pub is_pending_id : String → NgoApplication → Bool
is_pending_id id row = row.id == id && is_pending row

module _ (env : Env) {Key : Type 0} (services : Services Key) (status : ReviewStatus) where
  -- `update({ where: { id, status: 'PENDING' }, … })`
  pub update_pending_row : String → Option String → String → ℕ → ℕ → Exec NgoApplication
  update_pending_row id remark reviewed_by reviewed_at updated_at = prisma env λ db.
      elim (find_first (is_pending_id id) db.applications) [
        | none ↦ (err record_not_found, db)
        | some row ↦ (
          ok (review_row status remark reviewed_by reviewed_at updated_at row),
          record db {
            applications =
                update_where (is_pending_id id)
                  (review_row status remark reviewed_by reviewed_at updated_at) db.applications;
          },
        )
      ]

  pub update_pending : String → Option String → String → Exec NgoApplication
  unfolding update_pending_row
  update_pending id remark reviewed_by = do
    reviewed_at ← clock env
    updated_at ← clock env
    update_pending_row id remark reviewed_by reviewed_at updated_at

  abbrev pub tell : NgoApplication → Exec (Reply NgoApplication)
  tell reviewed = do
    services.notify
        (application_reviewed none reviewed.id reviewed.owner_address status (note_of reviewed))
    pure (replied 200 reviewed)

  abbrev pub answer_failure : Thrown → Exec (Reply NgoApplication)
  answer_failure e = if is_record_not_found e then pure (refused 404 "not_found") else throw e

  pub review_pending : String → Option String → String → Exec (Reply NgoApplication)
  unfolding update_pending
  review_pending id remark reviewed_by =
      catch (do reviewed ← update_pending id remark reviewed_by; tell reviewed) answer_failure

  abbrev pub has_verified_email : NgoApplication → Bool
  has_verified_email row = elim row.email_verified_at [ none ↦ false | some at ↦ true ]

  pub review_found :
      String → Option String → String → Option NgoApplication → Exec (Reply NgoApplication)
  unfolding review_pending
  review_found id remark reviewed_by none = pure (refused 404 "not_found")
  review_found id remark reviewed_by (some row) =
      if not (is_pending row)
      then pure (refused 409 "already_reviewed")
      else if not (has_verified_email row)
      then pure (refused 409 "contact_email_unverified")
      else review_pending id remark reviewed_by

  pub find_application : String → Exec (Option NgoApplication)
  find_application id = query env (λ db. find_first (has_id id) db.applications)

  pub review_parsed : String → Option String → String → Exec (Reply NgoApplication)
  unfolding review_found find_application
  review_parsed id remark reviewed_by = do
    found ← find_application id
    review_found id remark reviewed_by found

  -- `reviewedBy` is the address header; `id` and the note come from the path and the body.
  pub review : Option String → Field → Field → Exec (Reply NgoApplication)
  unfolding review_parsed
  review address id remark = given address (pure (refused 401 "unauthorized")) (λ reviewed_by.
      given (parse_uuid services.zod id) (pure (refused 400 "invalid_request")) (λ id.
        given (parse_review_note remark) (pure (refused 400 "invalid_request"))
          (λ remark. review_parsed id remark reviewed_by)))

-- POST /ngo-applications/:id/approve and /ngo-applications/:id/reject
module _ (env : Env) {Key : Type 0} (services : Services Key) where
  abbrev pub approve : Option String → Field → Field → Exec (Reply NgoApplication)
  approve = review env services ReviewStatus.approved

  abbrev pub reject : Option String → Field → Field → Exec (Reply NgoApplication)
  reject = review env services ReviewStatus.rejected
