-- ===== src/Notifications/ContactVerification/Accepts.antt =====
-- A link that is stored and presented in time is accepted.
use streamgive_backend.Prelude.{
  ℕ, suc, String, ◌≡◌, refl, ap, ◌∙◌, true, false, none, some, any, find_first, count_where, ◌==◌,
  update_where, delete_where, leb, nat_eq, if◌then◌else◌,
}
use streamgive_backend.Db.{ContactChallenge, Database, NgoApplication}
use streamgive_backend.Db.Exec.{
  Result, ok, err, Env, World, tick, pure, ◌>>=◌, ◌>>◌, record_not_found,
}
use streamgive_backend.Db.Calm.{bind-ok, prisma-answers, transaction-calm}
use streamgive_backend.Middleware.AdminAuth.{Crypto}
use streamgive_backend.Notifications.ContactVerification.{
  has_token_hash, has_application_id, verify_email, hash_token, find_challenge, delete_challenges,
  mark_row, mark_verified, consume, finish_redeem, redeem_at, redeem, redeem_found,
  verify_contact_token,
}

module _ (env : Env) (calm : (n : ℕ) → env.fault n ≡ none) {Key : Type 0}
    (crypto : Crypto Key) where
  -- The world with the challenges of a hash deleted and an application verified, after some calls.
  abbrev pub redeemed : String → String → ℕ → ℕ → ℕ → World → World
  redeemed token_hash id at updated calls w = record w {
    calls = calls;
    database = record w.database {
      contact_challenges =
          delete_where (λ (c : ContactChallenge). c.token_hash == token_hash)
            w.database.contact_challenges;
      applications =
          update_where (λ (a : NgoApplication). a.id == id)
            (λ (a : NgoApplication). record a { email_verified_at = some at; updated_at = updated })
            w.database.applications;
    };
  }

  mark_row-calm :
      (id : String) (at updated : ℕ) (w : World)
      → any (has_application_id id) w.database.applications ≡ true
      → mark_row env crypto id at updated w ≡ (
        ok tt,
        record (tick w) {
          database = record w.database {
            applications =
                update_where
                  (has_application_id id)
                  (verify_email at updated)
                  w.database.applications;
          };
        },
      )
  unfolding mark_row
  mark_row-calm id at updated w there =
      let f : Database → Result Unit × Database = λ db.
        if any (has_application_id id) db.applications
        then (
          ok tt,
          record db {
            applications =
                update_where (has_application_id id) (verify_email at updated) db.applications;
          },
        )
        else (err record_not_found, db) in
      prisma-answers env calm f tt _ w (rw there refl)

  finish_redeem-calm :
      (challenge : ContactChallenge) (w : World)
      → any (has_application_id challenge.application_id) w.database.applications ≡ true
      → finish_redeem env crypto challenge true w ≡ (
        ok true,
        record w {
          calls = suc (suc (suc w.calls));
          database = record w.database {
            applications =
                update_where
                  (has_application_id challenge.application_id)
                  (verify_email (env.now w.calls) (env.now (suc w.calls)))
                  w.database.applications;
          };
        },
      )
  unfolding finish_redeem mark_verified
  finish_redeem-calm challenge w there =
      bind-ok (mark_verified env crypto challenge.application_id (env.now w.calls)) (λ _. pure true)
        tt (tick w) _
        (mark_row-calm challenge.application_id (env.now w.calls) (env.now (suc w.calls))
          (tick (tick w)) there)

  delete_challenges-calm :
      (token_hash : String) (w : World)
      → count_where (has_token_hash token_hash) w.database.contact_challenges ≡ 1
      → delete_challenges env crypto token_hash w ≡ (
        ok 1,
        record (tick w) {
          database = record w.database {
            contact_challenges =
                delete_where (has_token_hash token_hash) w.database.contact_challenges;
          };
        },
      )
  unfolding delete_challenges
  delete_challenges-calm token_hash w one =
      let db : Database = record w.database {
        contact_challenges = delete_where (has_token_hash token_hash) w.database.contact_challenges;
      } in
      prisma-answers env calm _ 1 db w (ap (λ n. (ok n, db)) one)

  consume-calm :
      (token_hash : String) (w : World)
      → count_where (has_token_hash token_hash) w.database.contact_challenges ≡ 1
      → consume env crypto token_hash w ≡ (
        ok true,
        record w {
          calls = suc w.calls;
          database = record w.database {
            contact_challenges =
                delete_where (has_token_hash token_hash) w.database.contact_challenges;
          };
        },
      )
  unfolding consume
  consume-calm token_hash w one =
      bind-ok (delete_challenges env crypto token_hash) (λ n. pure (nat_eq n 1)) 1 w _
        (delete_challenges-calm token_hash w one)

  redeem_at-calm :
      (token_hash : String) (challenge : ContactChallenge) (now : ℕ) (w : World)
      → leb challenge.expires_at now ≡ false
      → count_where (has_token_hash token_hash) w.database.contact_challenges ≡ 1
      → any (has_application_id challenge.application_id) w.database.applications ≡ true
      → redeem_at env crypto token_hash challenge now w ≡ (
        ok true,
        redeemed token_hash challenge.application_id
            (env.now (suc w.calls))
            (env.now (suc (suc w.calls)))
            (suc (suc (suc (suc w.calls))))
            w,
      )
  unfolding redeem_at
  redeem_at-calm token_hash challenge now w early one there =
      ap
        (λ b.
          (if b
              then delete_challenges env crypto token_hash >> pure false
              else consume env crypto token_hash >>= finish_redeem env crypto challenge)
            w)
        early
      ∙ bind-ok (consume env crypto token_hash) (finish_redeem env crypto challenge) true w _
          (consume-calm token_hash w one)
      ∙ finish_redeem-calm challenge _ there

  -- Where no database call fails, and a token's hash is stored in exactly one challenge, that has not
  -- expired and whose application exists, the token is accepted; afterwards no challenge has the hash,
  -- the application's email is verified at the time of the call, and nothing else of the database has
  -- changed.
  pub verify_contact_token-accepts :
      (token : String) (challenge : ContactChallenge) (w : World)
      → find_first (has_token_hash (hash_token env crypto token)) w.database.contact_challenges
        ≡ some challenge
      → count_where (has_token_hash (hash_token env crypto token)) w.database.contact_challenges ≡ 1
      → leb challenge.expires_at (env.now (suc w.calls)) ≡ false
      → any (has_application_id challenge.application_id) w.database.applications ≡ true
      → verify_contact_token env crypto token w ≡ (
        ok true,
        redeemed
            (hash_token env crypto token)
            challenge.application_id
            (env.now (suc (suc (suc w.calls))))
            (env.now (suc (suc (suc (suc w.calls)))))
            (suc (suc (suc (suc (suc (suc (suc w.calls)))))))
            w,
      )
  unfolding verify_contact_token redeem_found redeem find_challenge
  verify_contact_token-accepts token challenge w found one early there =
      let hash = hash_token env crypto token in
      transaction-calm env calm (find_challenge env crypto hash >>= redeem_found env crypto hash)
        true w _
        (bind-ok (find_challenge env crypto hash) (redeem_found env crypto hash) (some challenge) w
            (tick w) (prisma-answers env calm _ (some challenge) w.database w (rw found refl))
          ∙ redeem_at-calm hash challenge (env.now (suc w.calls)) (tick (tick w)) early one there)
