-- ===== src/Routes/Applications/Submit/Authentic.antt =====
-- Only who holds the owner's key can submit an application.
use streamgive_backend.Prelude.{
  [], ◌∷◌, ap, ◌∙◌, ℕ, ◌<◌, String, ◌≡◌, ◌⊎◌, ◌<>◌, ◌++◌, Option-cases, Bool-cases, inl, inr, refl,
  true, not, ◌||◌, Option, none, some, ◌==◌, find_first, leb, arith, if◌then◌else◌,
}
use streamgive_backend.Db.{NgoApplication, ApplicationChallenge}
use streamgive_backend.Db.Exec.{Result, ok, Env, Exec, World, pure, tick, given}
use streamgive_backend.Db.Split.{if-split, query-bind}
use streamgive_backend.Middleware.AdminAuth.{matches, sep53_hash}
use streamgive_backend.Middleware.AdminAuth.Accepts.{Signs, matches-Signs}
use streamgive_backend.Routes.Reply.{Reply, refused, replied}
use streamgive_backend.Routes.Applications.Schema.{Submission, SubmissionBody, parse_submission}
use streamgive_backend.Routes.Applications.Services.{Services}
use streamgive_backend.Routes.Applications.Submit.{
  has_challenge, application_challenge_message, verify_application_signature, submit_signed,
  check_challenge, submit_found, find_application_challenge, submit_parsed, submit,
}

-- The four lines that the owner signs.
abbrev pub text_to_sign : (expires_at owner_address challenge : String) → String
text_to_sign expires_at owner_address challenge =
    "StreamGive NGO application address verification" <> "\n" <> "Owner address: " <> owner_address
    <> "\n" <> "Challenge: " <> challenge <> "\n" <> "Expires at: " <> expires_at

module _ (env : Env) {Key : Type 0} (services : Services Key) where
  verify_application_signature-Signs :
      (address message signature : String)
      → verify_application_signature env services address message signature ≡ true
      → (services.is_valid_public_key address ≡ true)
        × ((key : Key) × (services.crypto.from_public_key address ≡ some key)
            × (Signs services.crypto key
                  (sep53_hash services.crypto message)
                  (services.crypto.from_base64 signature)
                ⊎ Signs services.crypto key
                    (sep53_hash services.crypto message)
                    (services.crypto.from_hex signature)))
  unfolding verify_application_signature
  verify_application_signature-Signs address message signature h =
      let bytes = services.crypto.from_base64 signature in
      let hex = services.crypto.from_hex signature in
      let hash = sep53_hash services.crypto message in
      elim (Bool-cases (services.is_valid_public_key address)) [
        | inr e ↦ absurd (ground (arith, e, h))
        | inl e ↦ elim (Option-cases (services.crypto.from_public_key address)) [
          | inl f ↦ absurd (ground (arith, e, f, h))
          | inr (key, f) ↦
              elim (Option-cases (matches services.crypto key hash (bytes ∷ hex ∷ []))) [
                | inl m ↦ absurd (ground (arith, e, f, m, h))
                | inr (verified, m) ↦
                    let yes : verified ≡ true = ground (arith, e, f, m, h) in
                    (
                      e,
                      (key, f, matches-Signs services.crypto key hash bytes hex (m ∙ ap some yes)),
                    )
              ]
        ]
      ]

  module _ (submission : Submission) where
    -- The challenge is the owner's and in time, and 64 bytes that the signature decodes to are the
    -- signature of the owner's key over the SEP-53 hash of the text to sign.
    pub record Signed (row : ApplicationChallenge) (now : ℕ) : Type 0 where
      pub owner : (row.owner_address == submission.application.owner_address) ≡ true
      pub early : now < row.expires_at
      pub well_formed : services.is_valid_public_key submission.application.owner_address ≡ true
      pub key : Key
      pub registered :
          services.crypto.from_public_key submission.application.owner_address ≡ some key
      pub signed :
          let hash = services.crypto.sha256 (
            services.crypto.utf8 "Stellar Signed Message:\n"
            ++ services.crypto.utf8 (
                text_to_sign
                  (services.to_iso_string row.expires_at)
                  row.owner_address
                  submission.challenge)) in
          Signs services.crypto key hash (services.crypto.from_base64 submission.signature)
          ⊎ Signs services.crypto key hash (services.crypto.from_hex submission.signature)

    abbrev pub Authentic : World → Type 0
    Authentic w =
        (row : ApplicationChallenge) × (find_first (has_challenge submission.challenge)
            w.database.application_challenges
          ≡ some row)
        × Signed row (env.now (tick w).calls)

    module _ (status : ℕ) (created : NgoApplication) where
      check_challenge-Signed :
          (row : ApplicationChallenge) (now : ℕ) (w : World)
          → (check_challenge env services submission row now w).0 ≡ ok (replied status created)
          → Signed row now
      unfolding check_challenge application_challenge_message sep53_hash
      check_challenge-Signed row now w =
          let P : Result (Reply NgoApplication) × World → Type 0 =
            λ r. r.0 ≡ ok (replied status created) → Signed row now in
          let bad : Exec (Reply NgoApplication) =
            pure (refused 400 "invalid_or_expired_challenge") in
          let verified =
            verify_application_signature env services submission.application.owner_address
              (application_challenge_message env services row.owner_address submission.challenge
                row.expires_at)
              submission.signature in
          let wrong : Exec (Reply NgoApplication) = pure (refused 401 "invalid_signature") in
          if-split P
            (not (row.owner_address == submission.application.owner_address)
              || leb row.expires_at now)
            bad (if verified then submit_signed env services submission else wrong) w
            (λ late h. ground (arith, h))
            (λ fine.
              if-split P verified (submit_signed env services submission) wrong w
                (λ signed h.
                  let (valid, (key, registered, by_key)) =
                    verify_application_signature-Signs submission.application.owner_address
                      (application_challenge_message env services row.owner_address
                        submission.challenge row.expires_at)
                      submission.signature signed in
                  record {
                    owner = ground (arith, fine);
                    early = ground (arith, fine);
                    well_formed = valid;
                    key = key;
                    registered = registered;
                    signed = by_key;
                  })
                (λ unsigned h. ground (arith, h)))

      submit_parsed-Authentic :
          (w : World)
          → (submit_parsed env services submission w).0 ≡ ok (replied status created)
          → Authentic w
      unfolding submit_parsed find_application_challenge submit_found
      submit_parsed-Authentic w =
          query-bind env (λ r. r.0 ≡ ok (replied status created) → Authentic w)
            (λ db. find_first (has_challenge submission.challenge) db.application_challenges)
            (submit_found env services submission) w (λ e h. ground (arith, h))
            (found
              (find_first (has_challenge submission.challenge) w.database.application_challenges)
              refl)
        where
          found :
              (o : Option ApplicationChallenge)
              → find_first (has_challenge submission.challenge) w.database.application_challenges
                ≡ o
              → (submit_found env services submission o (tick w)).0 ≡ ok (replied status created)
              → Authentic w
          found none e h = ground (arith, h)
          found (some row) e h =
              (row, e, check_challenge-Signed row (env.now (tick w).calls) (tick (tick w)) h)

  -- An application is answered with its row only if the body is well-formed, its challenge is stored
  -- for the very owner address that it names and in time, that address is a valid public key, and its
  -- signature, decoded as base64 or as hex, is one of 64 bytes that verifies under that key over the
  -- SEP-53 hash of the four lines with this address, the challenge and its time of expiry.
  pub submit-Authentic :
      (body : SubmissionBody) (w : World) (status : ℕ) (created : NgoApplication)
      → (submit env services body w).0 ≡ ok (replied status created)
      → (submission : Submission) × (parse_submission services.zod body ≡ some submission)
        × Authentic submission w
  unfolding submit
  submit-Authentic body w status created = parsed (parse_submission services.zod body) refl
    where
      parsed :
          (o : Option Submission)
          → parse_submission services.zod body ≡ o
          → (given o (pure (refused 400 "invalid_request")) (submit_parsed env services) w).0
            ≡ ok (replied status created)
          → (submission : Submission) × (parse_submission services.zod body ≡ some submission)
            × Authentic submission w
      parsed none e h = ground (arith, h)
      parsed (some submission) e h =
          (submission, e, submit_parsed-Authentic submission status created w h)
