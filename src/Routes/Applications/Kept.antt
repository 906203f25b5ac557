-- ===== src/Routes/Applications/Kept.antt =====
-- Every route keeps the applications: their rows evolve, and the table stays sound.
use streamgive_backend.Prelude.{
  ℕ, String, refl, Bool, true, false, Option, none, some, any, Bool-cases, inl, inr,
}
use streamgive_backend.Db.{NgoApplication, ContactChallenge}
use streamgive_backend.Db.Exec.{Env, Post, send_request}
use streamgive_backend.Db.Keeps.{Keeps, keeps_rules}
use streamgive_backend.Db.Split.{prisma-split}
use streamgive_backend.Middleware.AdminAuth.{Crypto}
use streamgive_backend.Notifications.ContactVerification.{
  Mail, Url, send_contact_verification, send_with, send_to_url, send_configured, store_challenge,
  send_mail, verify_contact_token, find_challenge, redeem_found, redeem, redeem_at, consume,
  finish_redeem, delete_challenges, mark_verified, mark_row, has_application_id,
}
use streamgive_backend.Routes.Applications.Evolution.{
  ApplicationsKept, ApplicationsKept-eq, applications_kept, ApplicationsKept-prisma,
  TableEvolves-verify, Sound-verify,
}

module _ (env : Env) {Key : Type 0} (crypto : Crypto Key) where
  send_request-Kept : (post : Post) → Keeps applications_kept (send_request env post)
  send_request-Kept post = record { at = λ w. ApplicationsKept-eq w _ refl }

  ruleset kept_rules = (keeps_rules, ApplicationsKept-prisma, send_request-Kept)

  module _ (mail : Mail) where
    store_challenge-Kept :
        (id token : String) (expires_at : ℕ)
        → Keeps applications_kept (store_challenge env crypto mail id token expires_at)
    unfolding store_challenge
    store_challenge-Kept id token expires_at = search kept_rules depth 10

    send_mail-Kept :
        (api_key from : String) (base : Url) (token : String) (application : NgoApplication)
        → Keeps applications_kept (send_mail env crypto mail api_key from base token application)
    unfolding send_mail
    send_mail-Kept api_key from base token application = search kept_rules depth 10

    send_with-Kept :
        (api_key from : String) (base : Url) (application : NgoApplication)
        → Keeps applications_kept (send_with env crypto mail api_key from base application)
    unfolding send_with
    send_with-Kept api_key from base application =
        search (kept_rules, store_challenge-Kept, send_mail-Kept) depth 10

    send_to_url-Kept :
        (api_key from : String) (base : Option Url) (application : NgoApplication)
        → Keeps applications_kept (send_to_url env crypto mail api_key from base application)
    unfolding send_to_url
    send_to_url-Kept api_key from none application = search kept_rules
    send_to_url-Kept api_key from (some base) application = search (kept_rules, send_with-Kept)

    send_configured-Kept :
        (api_key from url : Option String) (application : NgoApplication)
        → Keeps applications_kept (send_configured env crypto mail api_key from url application)
    unfolding send_configured
    send_configured-Kept (some api_key) (some from) (some url) application =
        send_to_url-Kept api_key from (mail.parse_url url) application
    send_configured-Kept none from url application = search kept_rules
    send_configured-Kept (some api_key) none url application = search kept_rules
    send_configured-Kept (some api_key) (some from) none application = search kept_rules

    pub send_contact_verification-Kept :
        (application : NgoApplication)
        → Keeps applications_kept (send_contact_verification env crypto mail application)
    unfolding send_contact_verification
    send_contact_verification-Kept application = search send_configured-Kept

  mark_row-Kept : (id : String) (at n : ℕ) → Keeps applications_kept (mark_row env crypto id at n)
  unfolding mark_row
  mark_row-Kept id at n = record {
    at = λ w.
        prisma-split env (λ r. ApplicationsKept w r.1) _ w (λ e. ApplicationsKept-eq w _ refl)
          (elim (Bool-cases (any (has_application_id id) w.database.applications)) [
            | inl there ↦ rw there (record {
              rows = TableEvolves-verify id at n w.database.applications;
              sound = Sound-verify id at n w.database.applications;
            })
            | inr gone ↦ rw gone (ApplicationsKept-eq w _ refl)
          ]);
  }

  mark_verified-Kept :
      (id : String) (at : ℕ) → Keeps applications_kept (mark_verified env crypto id at)
  unfolding mark_verified
  mark_verified-Kept id at = search (kept_rules, mark_row-Kept)

  delete_challenges-Kept :
      (token_hash : String) → Keeps applications_kept (delete_challenges env crypto token_hash)
  unfolding delete_challenges
  delete_challenges-Kept token_hash = search kept_rules

  consume-Kept : (token_hash : String) → Keeps applications_kept (consume env crypto token_hash)
  unfolding consume
  consume-Kept token_hash = search (kept_rules, delete_challenges-Kept)

  finish_redeem-Kept :
      (challenge : ContactChallenge) (b : Bool)
      → Keeps applications_kept (finish_redeem env crypto challenge b)
  unfolding finish_redeem
  finish_redeem-Kept challenge false = search kept_rules
  finish_redeem-Kept challenge true = search (kept_rules, mark_verified-Kept)

  redeem_at-Kept :
      (token_hash : String) (challenge : ContactChallenge) (now : ℕ)
      → Keeps applications_kept (redeem_at env crypto token_hash challenge now)
  unfolding redeem_at
  redeem_at-Kept token_hash challenge now =
      search (kept_rules, delete_challenges-Kept, consume-Kept, finish_redeem-Kept)

  redeem_found-Kept :
      (token_hash : String) (found : Option ContactChallenge)
      → Keeps applications_kept (redeem_found env crypto token_hash found)
  unfolding redeem_found redeem
  redeem_found-Kept token_hash none = search kept_rules
  redeem_found-Kept token_hash (some challenge) = search (kept_rules, redeem_at-Kept)

  pub verify_contact_token-Kept :
      (token : String) → Keeps applications_kept (verify_contact_token env crypto token)
  unfolding verify_contact_token find_challenge
  verify_contact_token-Kept token = search (kept_rules, redeem_found-Kept)
