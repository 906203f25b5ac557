-- ===== src/Notifications/ContactVerification/Once.antt =====
-- A link is accepted at most once, whatever links are visited and sent in between.
use streamgive_backend.Prelude.{
  ℕ, String, ◌≡◌, ◌≢◌, Bool, true, false, Option, none, some, List, [], ◌∷◌, ◌==◌, if◌then◌else◌,
  find_first-delete_where_other, find_first-upsert_other,
}
use streamgive_backend.Db.{ContactChallenge, NgoApplication}
use streamgive_backend.Db.Exec.{ok, Env, World, Post, Exec, pure, tick, send_request}
use streamgive_backend.Db.Keeps.{
  Keeps, Keeps-prisma, Keeps-catch, Keeps-bind, Keeps-pure, keeps_rules,
}
use streamgive_backend.Db.Split.{if-split}
use streamgive_backend.Middleware.AdminAuth.{Crypto}
use streamgive_backend.Notifications.ContactVerification.{
  has_token_hash, Mail, Url, hash_token, find_challenge, delete_challenges, consume, redeem_at,
  redeem, redeem_found, verify_contact_token, store_challenge, send_mail, send_with, send_to_url,
  send_configured, send_contact_verification,
}
use streamgive_backend.Notifications.ContactVerification.Gone.{
  Gone, gone_kept, finish_redeem-Gone, verify_contact_token-Spent, refuses,
}

module _ (env : Env) {Key : Type 0} (crypto : Crypto Key) (token_hash : String) where
  -- Visiting any link leaves them gone.
  delete_challenges-Gone :
      (other : String)
      → Keeps (gone_kept env crypto token_hash) (delete_challenges env crypto other)
  unfolding delete_challenges
  delete_challenges-Gone other = Keeps-prisma env _ (λ w.
      find_first-delete_where_other (has_token_hash token_hash) (has_token_hash other)
        w.database.contact_challenges)

  consume-Gone :
      (other : String) → Keeps (gone_kept env crypto token_hash) (consume env crypto other)
  unfolding consume
  consume-Gone other = search (keeps_rules, delete_challenges-Gone)

  redeem_found-Gone :
      (other : String) (found : Option ContactChallenge)
      → Keeps (gone_kept env crypto token_hash) (redeem_found env crypto other found)
  unfolding redeem_found redeem redeem_at
  redeem_found-Gone other none = search keeps_rules
  redeem_found-Gone other (some challenge) =
      search
        (
          keeps_rules,
          delete_challenges-Gone,
          consume-Gone,
          finish_redeem-Gone env crypto token_hash,
        )
        depth 12

  find_challenge-Gone :
      (other : String) → Keeps (gone_kept env crypto token_hash) (find_challenge env crypto other)
  unfolding find_challenge
  find_challenge-Gone other = Keeps-prisma env _ (λ w h. h)

  verify_contact_token-Gone :
      (token : String)
      → Keeps (gone_kept env crypto token_hash) (verify_contact_token env crypto token)
  unfolding verify_contact_token
  verify_contact_token-Gone token = search (keeps_rules, find_challenge-Gone, redeem_found-Gone)

  module _ (mail : Mail) where
    -- Storing another hash leaves them gone.
    store_challenge-Gone :
        (id token : String) (expires_at : ℕ)
        → hash_token env crypto token == token_hash ≡ false
        → Keeps
            (gone_kept env crypto token_hash)
            (store_challenge env crypto mail id token expires_at)
    unfolding store_challenge
    store_challenge-Gone id token expires_at other =
        Keeps-catch _ _
          (Keeps-bind _ _
            (Keeps-prisma env _ (λ w.
              find_first-upsert_other (has_token_hash token_hash) _ _ _
                w.database.contact_challenges other (λ c. other)))
            (λ _. Keeps-pure true))
          (λ e. Keeps-pure false)

    send_request-Gone :
        (post : Post) → Keeps (gone_kept env crypto token_hash) (send_request env post)
    send_request-Gone post = record { at = λ w h. h }

    send_mail-Gone :
        (api_key from : String) (base : Url) (token : String) (application : NgoApplication)
        → Keeps
            (gone_kept env crypto token_hash)
            (send_mail env crypto mail api_key from base token application)
    unfolding send_mail
    send_mail-Gone api_key from base token application = search (keeps_rules, send_request-Gone)

    -- The token that a mail would draw in this world has another hash.
    abbrev pub DrawsOther : World → Type 0
    DrawsOther w = hash_token env crypto (env.uuid w.calls) == token_hash ≡ false

    -- A mail that draws another hash leaves them gone.
    abbrev Harmless : Exec Bool → Type 0
    Harmless m =
        (w : World)
        → DrawsOther w
        → Gone env crypto token_hash w
        → Gone env crypto token_hash (m w).1

    send_with-Harmless :
        (api_key from : String) (base : Url) (application : NgoApplication)
        → Harmless (send_with env crypto mail api_key from base application)
    unfolding send_with
    send_with-Harmless api_key from base application w other =
        let token = env.uuid w.calls in
        (Keeps-bind (store_challenge env crypto mail application.id token _)
            (λ stored.
              if stored
              then send_mail env crypto mail api_key from base token application
              else pure false)
            (store_challenge-Gone application.id token _ other)
            (λ stored. search (keeps_rules, send_mail-Gone))).at
          (tick (tick w))

    send_to_url-Harmless :
        (api_key from : String) (base : Option Url) (application : NgoApplication)
        → Harmless (send_to_url env crypto mail api_key from base application)
    unfolding send_to_url
    send_to_url-Harmless api_key from none application = λ w other gone. gone
    send_to_url-Harmless api_key from (some base) application = λ w.
        if-split (λ r. DrawsOther w → Gone env crypto token_hash w → Gone env crypto token_hash r.1)
          _ (send_with env crypto mail api_key from base application) (pure false) w
          (λ usable. send_with-Harmless api_key from base application w)
          (λ not_usable other gone. gone)

    send_configured-Harmless :
        (api_key from url : Option String) (application : NgoApplication)
        → Harmless (send_configured env crypto mail api_key from url application)
    unfolding send_configured
    send_configured-Harmless (some api_key) (some from) (some text) application =
        send_to_url-Harmless api_key from (mail.parse_url text) application
    send_configured-Harmless none from url application = λ w other gone. gone
    send_configured-Harmless (some api_key) none url application = λ w other gone. gone
    send_configured-Harmless (some api_key) (some from) none application = λ w other gone. gone

    send-Harmless :
        (application : NgoApplication)
        → Harmless (send_contact_verification env crypto mail application)
    unfolding send_contact_verification
    send-Harmless application w other gone = send_configured-Harmless _ _ _ application w other gone

-- What is done with links: one is visited, or one is sent for an application.
pub data LinkUse : Type 0 where
  visit : String → LinkUse
  mailing : NgoApplication → LinkUse

module _ (env : Env) {Key : Type 0} (crypto : Crypto Key) (mail : Mail) where
  abbrev pub use_link : LinkUse → World → World
  use_link (visit token) w = (verify_contact_token env crypto token w).1
  use_link (mailing application) w = (send_contact_verification env crypto mail application w).1

  abbrev pub use_links : List LinkUse → World → World
  use_links [] w = w
  use_links (u ∷ us) w = use_links us (use_link u w)

  -- No mail that is sent on the way draws a token with this hash.
  abbrev pub Distinct : String → List LinkUse → World → Type 0
  Distinct token_hash [] w = Unit
  Distinct token_hash (visit token ∷ us) w = Distinct token_hash us (use_link (visit token) w)
  Distinct token_hash (mailing application ∷ us) w =
      DrawsOther env crypto token_hash mail w
      × Distinct token_hash us (use_link (mailing application) w)

  use_links-Gone :
      (token_hash : String) (us : List LinkUse) (w : World)
      → Distinct token_hash us w
      → Gone env crypto token_hash w
      → Gone env crypto token_hash (use_links us w)
  use_links-Gone token_hash [] w d gone = gone
  use_links-Gone token_hash (visit token ∷ us) w d gone =
      use_links-Gone token_hash us _ d
        ((verify_contact_token-Gone env crypto token_hash token).at w gone)
  use_links-Gone token_hash (mailing application ∷ us) w d gone =
      use_links-Gone token_hash us _ d.1
        (send-Harmless env crypto token_hash mail application w d.0 gone)

  -- A token that was accepted is not accepted again, whatever tokens are presented and whatever links are
  -- sent in between, where none of the tokens that are drawn for them has the same hash, and whichever
  -- database calls and requests fail.
  pub verify_contact_token-once :
      (token : String) (w : World) (us : List LinkUse)
      → (verify_contact_token env crypto token w).0 ≡ ok true
      → Distinct (hash_token env crypto token) us (verify_contact_token env crypto token w).1
      → (verify_contact_token env crypto token
          (use_links us (verify_contact_token env crypto token w).1)).0
        ≢ ok true
  verify_contact_token-once token w us accepted distinct = refuses env crypto token _ (
      use_links-Gone (hash_token env crypto token) us _ distinct
        (verify_contact_token-Spent env crypto token w accepted))
