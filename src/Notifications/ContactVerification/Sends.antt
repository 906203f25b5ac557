-- ===== src/Notifications/ContactVerification/Sends.antt =====
-- Sending a link never throws.
use streamgive_backend.Prelude.{ℕ, String, Option, none, some}
use streamgive_backend.Db.{NgoApplication}
use streamgive_backend.Db.Exec.{Env}
use streamgive_backend.Db.Total.{Total, total_rules}
use streamgive_backend.Middleware.AdminAuth.{Crypto}
use streamgive_backend.Notifications.ContactVerification.{
  Mail, Url, store_challenge, send_mail, send_with, send_to_url, send_configured,
  send_contact_verification,
}

module _ (env : Env) {Key : Type 0} (crypto : Crypto Key) (mail : Mail) where
  store_challenge-Total :
      (id token : String) (expires_at : ℕ)
      → Total (store_challenge env crypto mail id token expires_at)
  unfolding store_challenge
  store_challenge-Total id token expires_at = search total_rules

  send_mail-Total :
      (api_key from : String) (base : Url) (token : String) (application : NgoApplication)
      → Total (send_mail env crypto mail api_key from base token application)
  unfolding send_mail
  send_mail-Total api_key from base token application = search total_rules

  send_with-Total :
      (api_key from : String) (base : Url) (application : NgoApplication)
      → Total (send_with env crypto mail api_key from base application)
  unfolding send_with
  send_with-Total api_key from base application =
      search (total_rules, store_challenge-Total, send_mail-Total) depth 10

  send_to_url-Total :
      (api_key from : String) (base : Option Url) (application : NgoApplication)
      → Total (send_to_url env crypto mail api_key from base application)
  unfolding send_to_url
  send_to_url-Total api_key from none application = search total_rules
  send_to_url-Total api_key from (some base) application = search (total_rules, send_with-Total)

  send_configured-Total :
      (api_key from url : Option String) (application : NgoApplication)
      → Total (send_configured env crypto mail api_key from url application)
  unfolding send_configured
  send_configured-Total (some api_key) (some from) (some url) application =
      send_to_url-Total api_key from (mail.parse_url url) application
  send_configured-Total none from url application = search total_rules
  send_configured-Total (some api_key) none url application = search total_rules
  send_configured-Total (some api_key) (some from) none application = search total_rules

  pub send_contact_verification-Total :
      (application : NgoApplication) → Total (send_contact_verification env crypto mail application)
  unfolding send_contact_verification
  send_contact_verification-Total application = search send_configured-Total
