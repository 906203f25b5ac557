-- ===== src/Notifications/ContactVerification.antt =====
-- src/notifications/contactVerification.ts: the link that proves an application's contact email.
pub mod Escape
pub mod Gone
pub mod Once
pub mod Accepts
pub mod Sends
use Prim.Native.Char.{Char, code}
use streamgive_backend.Prelude.{
  ℕ, ◌+◌, ◌*◌, String, Bool, true, false, ◌&&◌, ◌||◌, not, Option, none, some, List, [], ◌∷◌, ◌++◌,
  ◌==◌, any, find_first, upsert, update_where, delete_where, count_where, ltb, leb, nat_eq,
  if◌then◌else◌, ◌<>◌,
}
use streamgive_backend.Db.{NgoApplication, ContactChallenge}
use streamgive_backend.Db.Exec.{
  Result, ok, err, Env, Exec, pure, throw, ◌>>=◌, ◌>>◌, catch, clock, random_uuid, send_request,
  Post, prisma, query, execute, transaction, record_not_found,
}
use streamgive_backend.Middleware.AdminAuth.{Crypto}

abbrev pub contact_email_token_ttl_ms : ℕ
contact_email_token_ttl_ms = 24 * 60 * 60 * 1000

pub record Url : Type 0 where
  pub protocol : String
  pub hostname : String
  pub href : String

-- The configuration, and what Node gives: `new URL(text)`, `none` where it throws; the link with the
-- token, from the base; and `JSON.stringify`.
pub record Mail : Type 0 where
  pub api_key : Option String
  pub from : Option String
  pub public_api_url : Option String
  pub parse_url : String → Option Url
  pub verification_url : Url → String → String
  pub json : (from to subject html : String) → String

-- `escapeHtml`
pub escape_character : Char → String
escape_character c =
    if nat_eq (code c) b'&'
    then "&amp;"
    else if nat_eq (code c) b'<'
    then "&lt;"
    else if nat_eq (code c) b'>'
    then "&gt;"
    else if nat_eq (code c) 34
    then "&quot;"
    else if nat_eq (code c) 39
    then "&#39;"
    else String.◌∷◌ c ""

pub escape_html : String → String
unfolding escape_character
escape_html String.[] = ""
escape_html (String.◌∷◌ c s) = escape_character c <> escape_html s

abbrev pub has_token_hash : String → ContactChallenge → Bool
has_token_hash token_hash challenge = challenge.token_hash == token_hash

abbrev pub for_application : String → ContactChallenge → Bool
for_application id challenge = challenge.application_id == id

abbrev pub has_application_id : String → NgoApplication → Bool
has_application_id id application = application.id == id

-- `!value`: an empty text counts as missing.
abbrev truthy : Option String → Option String
truthy none = none
truthy (some s) = if s == "" then none else some s

abbrev pub verify_email : ℕ → ℕ → NgoApplication → NgoApplication
verify_email at updated application = record application {
  email_verified_at = some at;
  updated_at = updated;
}

module _ (env : Env) {Key : Type 0} (crypto : Crypto Key) where
  unfoldable pub hash_token : String → String
  hash_token token = crypto.to_hex (crypto.sha256 (crypto.utf8 token))

  module _ (mail : Mail) where
    -- The upsert of the challenge; a throw counts as `false`.
    unfoldable pub store_challenge : String → String → ℕ → Exec Bool
    unfolding hash_token
    store_challenge id token expires_at =
        catch
          (do
            execute env (λ db. record db {
              contact_challenges =
                  upsert (for_application id)
                    (record {
                      token_hash = hash_token token;
                      application_id = id;
                      expires_at = expires_at;
                    })
                    (λ c. record c { token_hash = hash_token token; expires_at = expires_at })
                    db.contact_challenges;
            })
            pure true)
          (λ e. pure false)

    unfoldable pub send_mail : String → String → Url → String → NgoApplication → Exec Bool
    unfolding escape_html
    send_mail api_key from base token application =
        catch
          (do
            status ← send_request env (record {
              url = "https://api.resend.com/emails";
              headers =
                  ("Authorization", "Bearer " <> api_key)
                  ∷ ("Content-Type", "application/json")
                  ∷ [];
              body =
                  mail.json from application.contact_email
                    "Verify your StreamGive NGO contact email"
                    ("<p>Hello "
                      <> escape_html application.name
                      <> ",</p><p><a href=\""
                      <> mail.verification_url base token
                      <> "\">Verify this contact email</a>. This link expires in 24 hours.</p>");
            })
            pure (leb 200 status && ltb status 300))
          (λ e. pure false)

    -- With a usable base URL: draw the token, store its hash, send the link.
    unfoldable pub send_with : String → String → Url → NgoApplication → Exec Bool
    unfolding store_challenge send_mail
    send_with api_key from base application = do
      token ← random_uuid env
      now ← clock env
      stored ← store_challenge application.id token (now + contact_email_token_ttl_ms)
      if stored then send_mail api_key from base token application else pure false

    abbrev is_usable : Url → Bool
    is_usable url = url.protocol == "https:" || url.hostname == "localhost"

    unfoldable pub send_to_url : String → String → Option Url → NgoApplication → Exec Bool
    unfolding send_with
    send_to_url api_key from none application = pure false
    send_to_url api_key from (some base) application =
        if is_usable base then send_with api_key from base application else pure false

    unfoldable pub send_configured :
        (api_key from public_api_url : Option String) → NgoApplication → Exec Bool
    unfolding send_to_url
    send_configured (some api_key) (some from) (some text) application =
        send_to_url api_key from (mail.parse_url text) application
    send_configured _ _ _ application = pure false

    unfoldable pub send_contact_verification : NgoApplication → Exec Bool
    unfolding send_configured
    send_contact_verification =
        send_configured (truthy mail.api_key) (truthy mail.from) (truthy mail.public_api_url)

  unfoldable pub find_challenge : String → Exec (Option ContactChallenge)
  find_challenge token_hash =
      query env (λ db. find_first (has_token_hash token_hash) db.contact_challenges)

  -- `deleteMany`, with its count.
  unfoldable pub delete_challenges : String → Exec ℕ
  delete_challenges token_hash = prisma env λ db. (
    ok (count_where (has_token_hash token_hash) db.contact_challenges),
    record db {
      contact_challenges = delete_where (has_token_hash token_hash) db.contact_challenges;
    },
  )

  unfoldable pub mark_row : String → ℕ → ℕ → Exec Unit
  mark_row id at updated_at = prisma env λ db.
      if any (has_application_id id) db.applications
      then (
        ok tt,
        record db {
          applications =
              update_where (has_application_id id) (verify_email at updated_at) db.applications;
        },
      )
      else (err record_not_found, db)

  unfoldable pub mark_verified : String → ℕ → Exec Unit
  unfolding mark_row
  mark_verified id at = do updated_at ← clock env; mark_row id at updated_at

  unfoldable pub consume : String → Exec Bool
  unfolding delete_challenges
  consume token_hash = do consumed ← delete_challenges token_hash; pure (nat_eq consumed 1)

  unfoldable pub finish_redeem : ContactChallenge → Bool → Exec Bool
  unfolding mark_verified
  finish_redeem challenge false = pure false
  finish_redeem challenge true = do
    at ← clock env
    mark_verified challenge.application_id at
    pure true

  unfoldable pub redeem_at : String → ContactChallenge → ℕ → Exec Bool
  unfolding consume finish_redeem
  redeem_at token_hash challenge now =
      if leb challenge.expires_at now
      then (do delete_challenges token_hash; pure false)
      else (do consumed ← consume token_hash; finish_redeem challenge consumed)

  unfoldable pub redeem : String → ContactChallenge → Exec Bool
  unfolding redeem_at
  redeem token_hash challenge = do now ← clock env; redeem_at token_hash challenge now

  unfoldable pub redeem_found : String → Option ContactChallenge → Exec Bool
  unfolding redeem
  redeem_found token_hash none = pure false
  redeem_found token_hash (some challenge) = redeem token_hash challenge

  unfoldable pub verify_contact_token : String → Exec Bool
  unfolding redeem_found find_challenge hash_token
  verify_contact_token token =
      transaction env
        (do found ← find_challenge (hash_token token); redeem_found (hash_token token) found)
