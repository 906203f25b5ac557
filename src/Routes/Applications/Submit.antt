-- ===== src/Routes/Applications/Submit.antt =====
-- The challenge that an NGO signs, and the submission of an application.
pub mod Kept
pub mod Accepts
pub mod Authentic
use streamgive_backend.Prelude.{
  ℕ, ◌+◌, ◌*◌, String, Bool, true, false, not, ◌&&◌, ◌||◌, Option, none, some, List, [], ◌∷◌, ◌++◌,
  ◌==◌, any, find_first, delete_where, count_where, ltb, leb, nat_eq, if◌then◌else◌, ◌<>◌,
}
use streamgive_backend.Db.{
  NgoApplication, ApplicationStatus, pending, approved, rejected, ApplicationChallenge,
}
use streamgive_backend.Db.Exec.{
  Result, ok, err, Thrown, error, plain_error, application_submitted, Env, Exec, pure, ◌>>=◌, ◌>>◌,
  gets, clock, random_uuid, prisma, unique_violation, query, execute, transaction, given,
}
use streamgive_backend.Middleware.AdminAuth.{Crypto, matches, sep53_hash}
use streamgive_backend.Notifications.ContactVerification.{send_contact_verification}
use streamgive_backend.Routes.Reply.{Reply, refused, replied}
use streamgive_backend.Routes.Applications.Schema.{
  Field, Application, Submission, SubmissionBody, parse_address, parse_submission,
}
use streamgive_backend.Routes.Applications.Services.{Services, is_open}

abbrev pub application_challenge_ttl_ms : ℕ
application_challenge_ttl_ms = 5 * 60 * 1000

abbrev pub has_challenge : String → ApplicationChallenge → Bool
has_challenge challenge row = row.challenge == challenge

abbrev pub is_expired : ℕ → ApplicationChallenge → Bool
is_expired now row = leb row.expires_at now

-- `challenge, ownerAddress, expiresAt: { gt: now }`
abbrev pub is_redeemable : String → String → ℕ → ApplicationChallenge → Bool
is_redeemable challenge owner_address now row =
    row.challenge == challenge && (row.owner_address == owner_address && ltb now row.expires_at)

abbrev pub has_id : String → NgoApplication → Bool
has_id id application = application.id == id

-- The application that blocks an address.
abbrev pub blocks : String → NgoApplication → Bool
blocks owner_address application = application.owner_address == owner_address && is_open application

abbrev pub new_application : String → ℕ → Application → NgoApplication
new_application id now submitted = record {
  id = id;
  owner_address = submitted.owner_address;
  name = submitted.name;
  description = submitted.description;
  website = submitted.website;
  contact_email = submitted.contact_email;
  country = submitted.country;
  status = pending;
  review_note = none;
  reviewed_by = none;
  reviewed_at = none;
  email_verified_at = none;
  created_at = now;
  updated_at = now;
}

pub record Issued : Type 0 where
  pub challenge : String
  pub message : String
  pub expires_at : ℕ

pub data Created : Type 0 where
  created : NgoApplication → Created
  blocked : ApplicationStatus → Created

module _ (env : Env) {Key : Type 0} (services : Services Key) where
  -- The four lines, joined by line feeds.
  unfoldable pub application_challenge_message : String → String → ℕ → String
  application_challenge_message owner_address challenge expires_at =
      "StreamGive NGO application address verification\nOwner address: "
      <> owner_address
      <> "\nChallenge: "
      <> challenge
      <> "\nExpires at: "
      <> services.to_iso_string expires_at

  -- A call that throws counts as `false`.
  unfoldable pub verify_application_signature : String → String → String → Bool
  verify_application_signature owner_address message signature =
      if services.is_valid_public_key owner_address
      then elim (services.crypto.from_public_key owner_address) [
        | none ↦ false
        | some key ↦
            elim (matches services.crypto key (sep53_hash services.crypto message)
              (services.crypto.from_base64 signature ∷ services.crypto.from_hex signature ∷ [])) [
                | none ↦ false
                | some verified ↦ verified
              ]
      ]
      else false

  pub delete_expired : ℕ → Exec Unit
  delete_expired now = execute env λ db. record db {
    application_challenges = delete_where (is_expired now) db.application_challenges;
  }

  pub create_challenge : ApplicationChallenge → Exec Unit
  create_challenge row = prisma env λ db.
      if any (has_challenge row.challenge) db.application_challenges
      then (err unique_violation, db)
      else (ok tt, record db { application_challenges = db.application_challenges ++ row ∷ [] })

  pub issue_for : String → Exec (Reply Issued)
  unfolding delete_expired create_challenge application_challenge_message
  issue_for owner_address = do
    challenge ← random_uuid env
    now ← clock env
    let expires_at = now + application_challenge_ttl_ms
    later ← clock env
    delete_expired later
    create_challenge
        (record { challenge = challenge; owner_address = owner_address; expires_at = expires_at })
    pure (
        replied 201 (record {
          challenge = challenge;
          message = application_challenge_message owner_address challenge expires_at;
          expires_at = expires_at;
        }))

  -- POST /ngo-applications/challenge
  pub issue_challenge : Field → Exec (Reply Issued)
  unfolding issue_for
  issue_challenge field =
      given (parse_address field) (pure (refused 400 "invalid_request")) (λ owner_address.
        if services.is_valid_public_key owner_address
        then issue_for owner_address
        else pure (refused 400 "invalid_request"))

  pub insert_application : Application → Exec NgoApplication
  insert_application submitted = do
    n ← gets (λ w. w.calls)
    prisma env λ db.
        let row = new_application (env.uuid n) (env.now n) submitted in
        if any (has_id row.id) db.applications
        then (err unique_violation, db)
        else (ok row, record db { applications = db.applications ++ row ∷ [] })

  pub create_unless_found : Application → Option NgoApplication → Exec Created
  unfolding insert_application
  create_unless_found submitted (some existing) = pure (blocked existing.status)
  create_unless_found submitted none = do row ← insert_application submitted; pure (created row)

  pub find_blocking : String → Exec (Option NgoApplication)
  find_blocking owner_address = query env (λ db. find_first (blocks owner_address) db.applications)

  -- The advisory lock makes the transactions of one address run one after the other.
  pub create_application_unless_blocked : Application → Exec Created
  unfolding create_unless_found find_blocking
  create_application_unless_blocked submitted = transaction env (do
    query env (λ db. tt)
    existing ← find_blocking submitted.owner_address
    create_unless_found submitted existing)

  pub announce : Created → Exec (Reply NgoApplication)
  announce (blocked approved) = pure (refused 409 "already_approved")
  announce (blocked pending) = pure (refused 409 "application_already_pending")
  announce (blocked rejected) = pure (refused 409 "application_already_pending")
  announce (created row) = do
    services.notify (application_submitted none row.id row.owner_address row.name)
    send_contact_verification env services.crypto services.mail row
    pure (replied 201 row)

  pub consume_challenge : String → String → ℕ → Exec ℕ
  consume_challenge challenge owner_address now = prisma env λ db. (
    ok (count_where (is_redeemable challenge owner_address now) db.application_challenges),
    record db {
      application_challenges =
          delete_where (is_redeemable challenge owner_address now) db.application_challenges;
    },
  )

  pub create_if : Application → Bool → Exec (Reply NgoApplication)
  unfolding create_application_unless_blocked announce
  create_if submitted false = pure (refused 400 "invalid_or_expired_challenge")
  create_if submitted true = do
    result ← create_application_unless_blocked submitted
    announce result

  -- Behind the signature: the challenge is consumed, once.
  pub submit_signed : Submission → Exec (Reply NgoApplication)
  unfolding consume_challenge create_if
  submit_signed submission = do
    now ← clock env
    consumed ← consume_challenge submission.challenge submission.application.owner_address now
    create_if submission.application (nat_eq consumed 1)

  pub check_challenge : Submission → ApplicationChallenge → ℕ → Exec (Reply NgoApplication)
  unfolding submit_signed verify_application_signature application_challenge_message
  check_challenge submission row now =
      if not (row.owner_address == submission.application.owner_address) || leb row.expires_at now
      then pure (refused 400 "invalid_or_expired_challenge")
      else if verify_application_signature submission.application.owner_address
          (application_challenge_message row.owner_address submission.challenge row.expires_at)
          submission.signature
      then submit_signed submission
      else pure (refused 401 "invalid_signature")

  pub submit_found : Submission → Option ApplicationChallenge → Exec (Reply NgoApplication)
  unfolding check_challenge
  submit_found submission none = pure (refused 400 "invalid_or_expired_challenge")
  submit_found submission (some row) = do now ← clock env; check_challenge submission row now

  pub find_application_challenge : String → Exec (Option ApplicationChallenge)
  find_application_challenge challenge =
      query env (λ db. find_first (has_challenge challenge) db.application_challenges)

  pub submit_parsed : Submission → Exec (Reply NgoApplication)
  unfolding submit_found find_application_challenge
  submit_parsed submission = do
    found ← find_application_challenge submission.challenge
    submit_found submission found

  -- POST /ngo-applications
  pub submit : SubmissionBody → Exec (Reply NgoApplication)
  unfolding submit_parsed
  submit body =
      given (parse_submission services.zod body) (pure (refused 400 "invalid_request"))
        submit_parsed
