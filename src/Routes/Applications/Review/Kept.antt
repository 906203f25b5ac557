-- ===== src/Routes/Applications/Review/Kept.antt =====
-- A review keeps the applications.
use streamgive_backend.Prelude.{
  ℕ, String, ◌≡◌, refl, true, not, Option, none, some, find_first, arith, Option-cases, inl, inr,
}
use streamgive_backend.Db.{NgoApplication}
use streamgive_backend.Db.Exec.{
  Thrown, Env, World, NotificationEvent, ReviewStatus, pure, ◌>>=◌, tick,
}
use streamgive_backend.Db.Keeps.{Keeps, keeps_rules}
use streamgive_backend.Db.Split.{catch-with, if-split, prisma-split, query-bind, holds-then}
use streamgive_backend.Routes.Reply.{refused}
use streamgive_backend.Routes.Applications.Schema.{Field}
use streamgive_backend.Routes.Applications.Services.{Services, is_pending}
use streamgive_backend.Routes.Applications.Submit.{has_id}
use streamgive_backend.Routes.Applications.Review.{
  is_pending_id, update_pending_row, update_pending, tell, answer_failure, review_pending,
  review_found, find_application, review_parsed, review, has_verified_email,
}
use streamgive_backend.Routes.Applications.Evolution.{
  ApplicationsKept, ApplicationsKept-eq, ApplicationsKept-trans, applications_kept, is_some,
  TableEvolves-review, Sound-review,
}

module _ (env : Env) {Key : Type 0} (services : Services Key)
    (notify_kept : (n : NotificationEvent) → Keeps applications_kept (services.notify n))
    (status : ReviewStatus) where
  module _ (id : String) (remark : Option String) (reviewed_by : String) where
    module _ (row : NgoApplication) (email : is_some row.email_verified_at ≡ true) where
      update_pending_row-Kept :
          (at n : ℕ) (w : World)
          → find_first (has_id id) w.database.applications ≡ some row
          → ApplicationsKept w
              (update_pending_row env services status id remark reviewed_by at n w).1
      unfolding update_pending_row
      update_pending_row-Kept at n w h =
          prisma-split env (λ r. ApplicationsKept w r.1) _ w (λ e. ApplicationsKept-eq w _ refl)
            (elim (Option-cases (find_first (is_pending_id id) w.database.applications)) [
              | inl gone ↦ rw gone (ApplicationsKept-eq w _ refl)
              | inr (there, e) ↦ rw e (record {
                rows =
                    TableEvolves-review status id remark reviewed_by at n w.database.applications;
                sound =
                    Sound-review status id remark reviewed_by at n w.database.applications row h
                      email;
              })
            ])

      update_pending-Kept :
          (w : World)
          → find_first (has_id id) w.database.applications ≡ some row
          → ApplicationsKept w (update_pending env services status id remark reviewed_by w).1
      unfolding update_pending
      update_pending-Kept w h =
          ApplicationsKept-trans (ApplicationsKept-eq w (tick (tick w)) refl)
            (update_pending_row-Kept (env.now w.calls) (env.now (tick w).calls) (tick (tick w)) h)

      tell-Kept :
          (reviewed : NgoApplication) → Keeps applications_kept (tell env services status reviewed)
      tell-Kept reviewed = search (keeps_rules, notify_kept)

      answer_failure-Kept :
          (e : Thrown) → Keeps applications_kept (answer_failure env services status e)
      answer_failure-Kept e = search keeps_rules

      review_pending-Kept :
          (w : World)
          → find_first (has_id id) w.database.applications ≡ some row
          → ApplicationsKept w (review_pending env services status id remark reviewed_by w).1
      unfolding review_pending
      review_pending-Kept w h =
          catch-with (λ r. ApplicationsKept w r.1) (λ r. ApplicationsKept w r.1)
            (update_pending env services status id remark reviewed_by >>= tell env services status)
            (answer_failure env services status) w
            (holds-then applications_kept (update_pending env services status id remark reviewed_by)
              (tell env services status) w (update_pending-Kept w h) tell-Kept)
            (λ a v q. q) (λ e v q. ApplicationsKept-trans q ((answer_failure-Kept e).at v))

    review_found-Kept :
        (found : Option NgoApplication) (w : World)
        → find_first (has_id id) w.database.applications ≡ found
        → ApplicationsKept w (review_found env services status id remark reviewed_by found w).1
    unfolding review_found
    review_found-Kept none w h = ApplicationsKept-eq w w refl
    review_found-Kept (some row) w h =
        if-split (λ r. ApplicationsKept w r.1) (not (is_pending row))
          (pure (refused 409 "already_reviewed")) _ w (λ _. ApplicationsKept-eq w w refl)
          (λ _.
            if-split (λ r. ApplicationsKept w r.1)
              (not (has_verified_email env services status row))
              (pure (refused 409 "contact_email_unverified"))
              (review_pending env services status id remark reviewed_by) w
              (λ _. ApplicationsKept-eq w w refl)
              (λ verified. review_pending-Kept row (ground (arith, verified)) w h))

    review_parsed-Kept :
        Keeps applications_kept (review_parsed env services status id remark reviewed_by)
    unfolding review_parsed find_application
    review_parsed-Kept = record {
      at = λ w.
          query-bind env (λ r. ApplicationsKept w r.1)
            (λ db. find_first (has_id id) db.applications)
            (review_found env services status id remark reviewed_by) w
            (λ e. ApplicationsKept-eq w (tick w) refl)
            (ApplicationsKept-trans (ApplicationsKept-eq w (tick w) refl)
              (review_found-Kept (find_first (has_id id) w.database.applications) (tick w) refl));
    }

  pub review-Kept :
      (address : Option String) (id remark : Field)
      → Keeps applications_kept (review env services status address id remark)
  unfolding review
  review-Kept address id remark = search (keeps_rules, review_parsed-Kept) depth 10
