-- ===== src/Notifications/Service/Receiver.antt =====
-- The receiver of README.md, and the requests of src/notifications/service.ts that it accepts.
use mathlib.Core.Path.{subst}
use streamgive_backend.Prelude.{
  sym, ℕ, zero, suc, ◌+◌, ◌*◌, ◌/◌, ◌≤◌, String, ◌≡◌, refl, arith, Bool, true, false, ◌&&◌, not,
  none, some, any, find_first, ◌==◌, eq_refl, ◌<>◌, codes, size, starts_with, nat_eq, leb, show_ℕ,
  number_from, number_from-show_ℕ, no_digit_code, is_empty, any-show_ℕ, is_empty-show_ℕ,
}
use streamgive_backend.Db.Exec.{Env, Post, NotificationEvent}
use streamgive_backend.Notifications.Service.Message.{
  Webhooks, WebhookTarget, truthy, signature_header, timestamp_header, delivery_header,
}
use streamgive_backend.Notifications.Service.Webhook.{post_of}

abbrev is_header : String → String × String → Bool
is_header name header = header.0 == name

-- The value of a header of a request, empty where it is missing.
abbrev header : String → Post → String
header name post = elim (find_first (is_header name) post.headers) [ none ↦ "" | some h ↦ h.1 ]

-- `[0-9a-f]`
abbrev no_hex_code : ℕ → Bool
no_hex_code c = no_digit_code c && not (leb 97 c && leb c 102)

-- `[0-9a-f]{64}`
abbrev pub is_hex_digest : String → Bool
is_hex_digest s = nat_eq (size s) 64 && not (any no_hex_code (codes s))

-- The text after its first characters.
abbrev text_after : ℕ → String → String
text_after zero s = s
text_after (suc n) String.[] = String.[]
text_after (suc n) (String.◌∷◌ c s) = text_after n s

-- `^\d+$`
abbrev is_number : String → Bool
is_number s = not (is_empty s) && not (any no_digit_code (codes s))

-- `Math.abs(Date.now() / 1000 - Number(timestamp)) <= 300`, in milliseconds.
abbrev is_recent : (now timestamp : ℕ) → Bool
is_recent now timestamp =
    leb now (timestamp * 1000 + 300000) && leb (timestamp * 1000) (now + 300000)

-- `isFromStreamGive`, at the receiver's clock. Equal digests have equal texts of lower-case hex digits.
abbrev is_genuine :
    (hmac : String → String → String) (secret : String) (now : ℕ)
    (raw_body timestamp delivery_id signature : String)
    → Bool
is_genuine hmac secret now raw_body timestamp delivery_id signature =
    (not (is_empty timestamp) && (not (is_empty delivery_id) && not (is_empty signature)))
    && (is_number timestamp
        && (is_recent now (number_from 0 (codes timestamp))
            && (starts_with (codes signature) (codes "v1=")
                && (is_hex_digest (text_after 3 signature)
                    && text_after 3 signature
                      == hmac secret (timestamp <> "." <> delivery_id <> "." <> raw_body)))))

abbrev pub is_from_streamgive : (String → String → String) → String → ℕ → Post → Bool
is_from_streamgive hmac secret now post =
    is_genuine hmac secret now post.body (header timestamp_header post)
      (header delivery_header post) (header signature_header post)

is_recent-read :
    (now sent : ℕ)
    → sent ≤ now + 300000
    → now ≤ sent + 299000
    → is_recent now (number_from 0 (codes (show_ℕ (sent / 1000)))) ≡ true
is_recent-read now sent early late =
    let low : sent / 1000 * 1000 ≤ sent = omega arith in
    let high : sent ≤ sent / 1000 * 1000 + 999 = omega arith in
    rw (number_from-show_ℕ (sent / 1000)) (ground (arith, low, high, early, late))

module _ (env : Env) (hooks : Webhooks) (event : NotificationEvent) (target : WebhookTarget)
    (secret : String) (configured : truthy target.secret ≡ some secret)
    (hex : (payload : String) → is_hex_digest (hooks.hmac secret payload) ≡ true) where
  signature_of : (timestamp id : String) → String
  signature_of timestamp id =
      "v1=" <> hooks.hmac secret (timestamp <> "." <> id <> "." <> hooks.stringify event)

  header-post_of :
      (timestamp id : String)
      → header signature_header (post_of env hooks event target timestamp id)
        ≡ signature_of timestamp id
  unfolding post_of signature_of
  header-post_of timestamp id = rw (configured, header) refl

  signature_of-accepted :
      (sent now : ℕ) (id : String)
      → is_empty id ≡ false
      → sent ≤ now + 300000
      → now ≤ sent + 299000
      → is_genuine hooks.hmac secret now
          (hooks.stringify event)
          (show_ℕ (sent / 1000))
          id
          (signature_of (show_ℕ (sent / 1000)) id)
        ≡ true
  unfolding signature_of
  signature_of-accepted sent now id named early late =
      let payload = show_ℕ (sent / 1000) <> "." <> id <> "." <> hooks.stringify event in
      ground (
        arith,
        named,
        is_empty-show_ℕ (sent / 1000),
        any-show_ℕ (sent / 1000),
        is_recent-read now sent early late,
        hex payload,
        eq_refl (hooks.hmac secret payload),
      )

  pub post_of-accepted :
      (sent now : ℕ) (id : String)
      → is_empty id ≡ false
      → sent ≤ now + 300000
      → now ≤ sent + 299000
      → is_from_streamgive hooks.hmac secret now
          (post_of env hooks event target (show_ℕ (sent / 1000)) id)
        ≡ true
  unfolding post_of
  post_of-accepted sent now id named early late =
      subst
        (λ given.
          is_genuine hooks.hmac secret now (hooks.stringify event) (show_ℕ (sent / 1000)) id given
          ≡ true)
        (sym (header-post_of (show_ℕ (sent / 1000)) id))
        (signature_of-accepted sent now id named early late)
