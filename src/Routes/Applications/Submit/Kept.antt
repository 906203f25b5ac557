-- ===== src/Routes/Applications/Submit/Kept.antt =====
-- A challenge and a submission keep the applications.
use streamgive_backend.Prelude.{
  ℕ, String, ◌≡◌, refl, Bool, true, false, Option, none, some, find_first, any, Bool-cases, inl,
  inr, arith,
}
use streamgive_backend.Prelude.Evolution.{TableEvolves-append}
use streamgive_backend.Db.{NgoApplication, ApplicationChallenge, pending, approved, rejected}
use streamgive_backend.Db.Exec.{Env, World, NotificationEvent, pure, ◌>>=◌, tick}
use streamgive_backend.Db.Keeps.{Keeps, keeps_rules}
use streamgive_backend.Db.Split.{prisma-split, query-bind, holds-then}
use streamgive_backend.Routes.Applications.Schema.{Field, Application, Submission, SubmissionBody}
use streamgive_backend.Routes.Applications.Services.{Services}
use streamgive_backend.Routes.Applications.Submit.{
  has_id, blocks, Created, created, blocked, delete_expired, create_challenge, issue_for,
  issue_challenge, insert_application, create_unless_found, find_blocking,
  create_application_unless_blocked, announce, consume_challenge, create_if, submit_signed,
  check_challenge, submit_found, find_application_challenge, submit_parsed, submit,
}
use streamgive_backend.Routes.Applications.Evolution.{
  ApplicationsKept, ApplicationsKept-eq, ApplicationsKept-trans, applications_kept,
  ApplicationsKept-prisma, AppEvolves, AppEvolves-refl, Sound-insert,
}
use streamgive_backend.Routes.Applications.Kept.{send_contact_verification-Kept}

module _ (env : Env) {Key : Type 0} (services : Services Key) where
  delete_expired-Kept : (now : ℕ) → Keeps applications_kept (delete_expired env services now)
  unfolding delete_expired
  delete_expired-Kept now = search (keeps_rules, ApplicationsKept-prisma)

  create_challenge-Kept :
      (row : ApplicationChallenge) → Keeps applications_kept (create_challenge env services row)
  unfolding create_challenge
  create_challenge-Kept row = ApplicationsKept-prisma env _ (λ db. ground arith)

  issue_for-Kept : (owner : String) → Keeps applications_kept (issue_for env services owner)
  unfolding issue_for
  issue_for-Kept owner = search (keeps_rules, delete_expired-Kept, create_challenge-Kept) depth 12

  pub issue_challenge-Kept :
      (field : Field) → Keeps applications_kept (issue_challenge env services field)
  unfolding issue_challenge
  issue_challenge-Kept field = search (keeps_rules, issue_for-Kept)

  module _ (submitted : Application) where
    insert_application-Kept :
        (w : World)
        → find_first (blocks submitted.owner_address) w.database.applications ≡ none
        → ApplicationsKept w (insert_application env services submitted w).1
    unfolding insert_application
    insert_application-Kept w free =
        prisma-split env (λ r. ApplicationsKept w r.1) _ w (λ e. ApplicationsKept-eq w _ refl)
          (elim (Bool-cases (any (has_id (env.uuid w.calls)) w.database.applications)) [
            | inl taken ↦ rw taken (ApplicationsKept-eq w _ refl)
            | inr fresh ↦ rw fresh (record {
              rows =
                  TableEvolves-append (λ (a : NgoApplication). a.id) AppEvolves AppEvolves-refl
                    w.database.applications _;
              sound =
                  Sound-insert (env.uuid w.calls) (env.now w.calls) submitted
                    w.database.applications fresh free;
            })
          ])

    create_unless_found-Kept :
        (found : Option NgoApplication) (w : World)
        → find_first (blocks submitted.owner_address) w.database.applications ≡ found
        → ApplicationsKept w (create_unless_found env services submitted found w).1
    unfolding create_unless_found
    create_unless_found-Kept (some existing) w h = ApplicationsKept-eq w w refl
    create_unless_found-Kept none w h =
        holds-then applications_kept (insert_application env services submitted)
          (λ row. pure (created row)) w (insert_application-Kept w h) (λ row. search keeps_rules)

    find_and_create-Kept : Keeps applications_kept (
        find_blocking env services submitted.owner_address
        >>= create_unless_found env services submitted)
    unfolding find_blocking
    find_and_create-Kept = record {
      at = λ w.
          query-bind env (λ r. ApplicationsKept w r.1)
            (λ db. find_first (blocks submitted.owner_address) db.applications)
            (create_unless_found env services submitted) w
            (λ e. ApplicationsKept-eq w (tick w) refl)
            (ApplicationsKept-trans (ApplicationsKept-eq w (tick w) refl) (
              create_unless_found-Kept
                (find_first (blocks submitted.owner_address) w.database.applications) (tick w)
                refl));
    }

    create_application-Kept :
        Keeps applications_kept (create_application_unless_blocked env services submitted)
    unfolding create_application_unless_blocked
    create_application-Kept = search (keeps_rules, ApplicationsKept-prisma, find_and_create-Kept)

  module _
      (notify_kept : (n : NotificationEvent) → Keeps applications_kept (services.notify n)) where
    announce-Kept : (result : Created) → Keeps applications_kept (announce env services result)
    unfolding announce
    announce-Kept (blocked approved) = search keeps_rules
    announce-Kept (blocked pending) = search keeps_rules
    announce-Kept (blocked rejected) = search keeps_rules
    announce-Kept (created row) = search (keeps_rules, notify_kept, send_contact_verification-Kept)

    consume_challenge-Kept :
        (challenge owner : String) (now : ℕ)
        → Keeps applications_kept (consume_challenge env services challenge owner now)
    unfolding consume_challenge
    consume_challenge-Kept challenge owner now = search (keeps_rules, ApplicationsKept-prisma)

    create_if-Kept :
        (submitted : Application) (b : Bool)
        → Keeps applications_kept (create_if env services submitted b)
    unfolding create_if
    create_if-Kept submitted false = search keeps_rules
    create_if-Kept submitted true = search (keeps_rules, create_application-Kept, announce-Kept)

    submit_signed-Kept :
        (submission : Submission) → Keeps applications_kept (submit_signed env services submission)
    unfolding submit_signed
    submit_signed-Kept submission = search (keeps_rules, consume_challenge-Kept, create_if-Kept)

    submit_found-Kept :
        (submission : Submission) (found : Option ApplicationChallenge)
        → Keeps applications_kept (submit_found env services submission found)
    unfolding submit_found check_challenge
    submit_found-Kept submission none = search keeps_rules
    submit_found-Kept submission (some row) = search (keeps_rules, submit_signed-Kept)

    submit_parsed-Kept :
        (submission : Submission) → Keeps applications_kept (submit_parsed env services submission)
    unfolding submit_parsed find_application_challenge
    submit_parsed-Kept submission = search (keeps_rules, ApplicationsKept-prisma, submit_found-Kept)

    pub submit-Kept : (body : SubmissionBody) → Keeps applications_kept (submit env services body)
    unfolding submit
    submit-Kept body = search (keeps_rules, submit_parsed-Kept)
