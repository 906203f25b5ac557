-- ===== src/Routes/Applications/Submit/Accepts.antt =====
-- A submission that is right in every respect is accepted.
use streamgive_backend.Prelude.{
  ℕ, suc, String, ◌≡◌, refl, ap, ◌∙◌, true, false, not, ◌||◌, none, some, [], ◌∷◌, ◌++◌, ◌==◌, any,
  find_first, count_where, delete_where, leb, nat_eq, if◌then◌else◌,
}
use streamgive_backend.Db.{pending, NgoApplication, ApplicationChallenge, Database}
use streamgive_backend.Db.Exec.{
  Result, ok, err, Env, World, NotificationEvent, pure, ◌>>=◌, ◌>>◌, tick, query, given,
  unique_violation, application_submitted,
}
use streamgive_backend.Db.Calm.{bind-ok, prisma-answers, transaction-calm}
use streamgive_backend.Notifications.ContactVerification.{send_contact_verification}
use streamgive_backend.Notifications.ContactVerification.Sends.{send_contact_verification-Total}
use streamgive_backend.Routes.Reply.{refused, replied}
use streamgive_backend.Routes.Applications.Schema.{
  Application, Submission, SubmissionBody, parse_submission,
}
use streamgive_backend.Routes.Applications.Services.{Services}
use streamgive_backend.Routes.Applications.Submit.{
  has_id, has_challenge, is_redeemable, blocks, new_application, created,
  application_challenge_message, verify_application_signature, insert_application,
  create_unless_found, find_blocking, create_application_unless_blocked, announce,
  consume_challenge, create_if, submit_signed, check_challenge, submit_found,
  find_application_challenge, submit_parsed, submit,
}

-- The row that the applicant is shown: what was submitted, still to be verified and reviewed.
abbrev pub accepted_row : String → ℕ → Application → NgoApplication
accepted_row id now submitted = record {
  id = id;
  owner_address = submitted.owner_address;
  name = submitted.name;
  description = submitted.description;
  website = submitted.website;
  contact_email = submitted.contact_email;
  country = submitted.country;
  status = pending;
  review_note = none;
  reviewed_by = none;
  reviewed_at = none;
  email_verified_at = none;
  created_at = now;
  updated_at = now;
}

module _ (env : Env) (calm : (n : ℕ) → env.fault n ≡ none) {Key : Type 0} (services : Services Key)
    (notified : (event : NotificationEvent) (w : World) → (services.notify event w).0 ≡ ok tt) where
  announce-replies :
      (row : NgoApplication) (w : World)
      → (announce env services (created row) w).0 ≡ ok (replied 201 row)
  unfolding announce
  announce-replies row w =
      let event = application_submitted none row.id row.owner_address row.name in
      let send = send_contact_verification env services.crypto services.mail row in
      let v = (services.notify event w).1 in
      ap (λ r. r.0)
        (bind-ok (services.notify event) (λ _. send >> pure (replied 201 row)) tt w v
          (ap (λ r. (r, v)) (notified event w)))
      ∙ ap (λ r. r.0)
          (bind-ok send (λ _. pure (replied 201 row)) _ v (send v).1
            (ap (λ r. (r, (send v).1))
              ((send_contact_verification-Total env services.crypto services.mail row).returns
                v).1))

  -- The insertion, and the transaction around it.
  insert-calm :
      (submitted : Application) (w : World)
      → any (has_id (env.uuid w.calls)) w.database.applications ≡ false
      → (insert_application env services submitted w).0
        ≡ ok (new_application (env.uuid w.calls) (env.now w.calls) submitted)
  unfolding insert_application
  insert-calm submitted w fresh =
      let row = new_application (env.uuid w.calls) (env.now w.calls) submitted in
      let f : Database → Result NgoApplication × Database = λ db.
        if any (has_id row.id) db.applications
        then (err unique_violation, db)
        else (ok row, record db { applications = db.applications ++ row ∷ [] }) in
      ap (λ r. r.0)
        (prisma-answers env calm f row
          (record w.database { applications = w.database.applications ++ row ∷ [] }) w
          (rw fresh refl))

  create_unless_found-calm :
      (submitted : Application) (w : World)
      → any (has_id (env.uuid w.calls)) w.database.applications ≡ false
      → (create_unless_found env services submitted none w).0
        ≡ ok (created (new_application (env.uuid w.calls) (env.now w.calls) submitted))
  unfolding create_unless_found
  create_unless_found-calm submitted w fresh =
      let insert = insert_application env services submitted in
      ap (λ r. r.0)
        (bind-ok insert (λ row. pure (created row)) _ w (insert w).1
          (ap (λ r. (r, (insert w).1)) (insert-calm submitted w fresh)))

  create_application-calm :
      (submitted : Application) (w : World)
      → find_first (blocks submitted.owner_address) w.database.applications ≡ none
      → any (has_id (env.uuid (suc (suc w.calls)))) w.database.applications ≡ false
      → (create_application_unless_blocked env services submitted w).0
        ≡ ok (
            created (
              new_application
                (env.uuid (suc (suc w.calls)))
                (env.now (suc (suc w.calls)))
                submitted))
  unfolding create_application_unless_blocked find_blocking
  create_application-calm submitted w free fresh =
      let find = find_blocking env services submitted.owner_address in
      let create = create_unless_found env services submitted in
      let v = tick (tick w) in
      ap (λ r. r.0)
        (transaction-calm env calm (query env (λ db. tt) >> (find >>= create)) _ w (create none v).1
          (bind-ok (query env (λ db. tt)) (λ _. find >>= create) tt w (tick w)
              (prisma-answers env calm _ tt w.database w refl)
            ∙ bind-ok find create none (tick w) v
                (prisma-answers env calm _ none w.database (tick w) (rw free refl))
            ∙ ap (λ r. (r, (create none v).1)) (create_unless_found-calm submitted v fresh)))

  module _ (submission : Submission) (row : ApplicationChallenge) (w : World) where
    -- What the submitter has to have done, and what the table has to allow: the challenge is stored
    -- once, for this owner, and is in time at both readings of the clock; the signature is that of the
    -- message; no application blocks the owner, and the id that is drawn is free.
    pub record Valid : Type 0 where
      pub found :
          find_first (has_challenge submission.challenge) w.database.application_challenges
          ≡ some row
      pub owner : (row.owner_address == submission.application.owner_address) ≡ true
      pub early : leb row.expires_at (env.now (suc w.calls)) ≡ false
      pub once :
          count_where
            (is_redeemable submission.challenge submission.application.owner_address
              (env.now (suc (suc w.calls))))
            w.database.application_challenges
          ≡ 1
      pub signed :
          verify_application_signature env services submission.application.owner_address
            (application_challenge_message env services row.owner_address submission.challenge
              row.expires_at)
            submission.signature
          ≡ true
      pub unblocked :
          find_first (blocks submission.application.owner_address) w.database.applications ≡ none
      pub fresh :
          any
            (has_id (env.uuid (suc (suc (suc (suc (suc (suc w.calls))))))))
            w.database.applications
          ≡ false

    abbrev consumed : ℕ → World → World
    consumed now v = record (tick v) {
      database = record v.database {
        application_challenges =
            delete_where
              (is_redeemable submission.challenge submission.application.owner_address now)
              v.database.application_challenges;
      };
    }

    consume-calm :
        (now : ℕ) (v : World)
        → count_where
            (is_redeemable submission.challenge submission.application.owner_address now)
            v.database.application_challenges
          ≡ 1
        → consume_challenge env services submission.challenge submission.application.owner_address
            now v
          ≡ (ok 1, consumed now v)
    unfolding consume_challenge
    consume-calm now v one =
        prisma-answers env calm _ 1 (consumed now v).database v
          (ap (λ n. (ok n, (consumed now v).database)) one)

    create_if-calm :
        (v : World)
        → find_first (blocks submission.application.owner_address) v.database.applications ≡ none
        → any (has_id (env.uuid (suc (suc v.calls)))) v.database.applications ≡ false
        → (create_if env services submission.application true v).0
          ≡ ok (
              replied 201 (
                new_application
                  (env.uuid (suc (suc v.calls)))
                  (env.now (suc (suc v.calls)))
                  submission.application))
    unfolding create_if
    create_if-calm v free fresh =
        let create = create_application_unless_blocked env services submission.application in
        ap (λ r. r.0)
          (bind-ok create (announce env services) _ v (create v).1 (
            ap (λ r. (r, (create v).1))
              (create_application-calm submission.application v free fresh)))
        ∙ announce-replies _ (create v).1

    submit_signed-calm :
        (v : World)
        → count_where
            (is_redeemable submission.challenge submission.application.owner_address
              (env.now v.calls))
            v.database.application_challenges
          ≡ 1
        → find_first (blocks submission.application.owner_address) v.database.applications ≡ none
        → any (has_id (env.uuid (suc (suc (suc (suc v.calls)))))) v.database.applications ≡ false
        → (submit_signed env services submission v).0
          ≡ ok (
              replied 201 (
                new_application
                  (env.uuid (suc (suc (suc (suc v.calls)))))
                  (env.now (suc (suc (suc (suc v.calls)))))
                  submission.application))
    unfolding submit_signed
    submit_signed-calm v one free fresh =
        let now = env.now v.calls in
        ap (λ r. r.0)
          (bind-ok
            (consume_challenge env services submission.challenge
              submission.application.owner_address now)
            (λ n. create_if env services submission.application (nat_eq n 1)) 1 (tick v)
            (consumed now (tick v)) (consume-calm now (tick v) one))
        ∙ create_if-calm (consumed now (tick v)) free fresh

    check_challenge-calm :
        (now : ℕ) (v : World)
        → (row.owner_address == submission.application.owner_address) ≡ true
        → leb row.expires_at now ≡ false
        → verify_application_signature env services submission.application.owner_address
            (application_challenge_message env services row.owner_address submission.challenge
              row.expires_at)
            submission.signature
          ≡ true
        → check_challenge env services submission row now v
          ≡ submit_signed env services submission v
    unfolding check_challenge
    check_challenge-calm now v owner early signed =
        let late = ap (λ b. not b || leb row.expires_at now) owner ∙ early in
        ap
          (λ b.
            (if b
                then pure (refused 400 "invalid_or_expired_challenge")
                else if verify_application_signature env services
                    submission.application.owner_address
                    (application_challenge_message env services row.owner_address
                      submission.challenge row.expires_at)
                    submission.signature
                then submit_signed env services submission
                else pure (refused 401 "invalid_signature"))
              v)
          late
        ∙ ap
            (λ b.
              (if b
                  then submit_signed env services submission
                  else pure (refused 401 "invalid_signature"))
                v)
            signed

    pub submit-accepts :
        (body : SubmissionBody)
        → parse_submission services.zod body ≡ some submission
        → Valid
        → (submit env services body w).0
          ≡ ok (
              replied 201 (
                accepted_row
                  (env.uuid (suc (suc (suc (suc (suc (suc w.calls)))))))
                  (env.now (suc (suc (suc (suc (suc (suc w.calls)))))))
                  submission.application))
    unfolding submit submit_parsed submit_found find_application_challenge
    submit-accepts body parsed valid =
        ap (λ o. (given o (pure (refused 400 "invalid_request")) (submit_parsed env services) w).0)
          parsed
        ∙ ap (λ r. r.0)
            (bind-ok (find_application_challenge env services submission.challenge)
              (submit_found env services submission) (some row) w (tick w)
              (prisma-answers env calm _ (some row) w.database w (rw valid.found refl)))
        ∙ ap (λ r. r.0)
            (check_challenge-calm (env.now (suc w.calls)) (tick (tick w)) valid.owner valid.early
              valid.signed)
        ∙ submit_signed-calm (tick (tick w)) valid.once valid.unblocked valid.fresh
