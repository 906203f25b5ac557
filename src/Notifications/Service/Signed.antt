-- ===== src/Notifications/Service/Signed.antt =====
-- The requests that are sent to a target with a secret.
use streamgive_backend.Prelude.{
  ℕ, ◌+◌, ◌/◌, ◌≤◌, ◌<◌, String, ◌≡◌, refl, ap, ◌∙◌, ◌⊎◌, inl, inr, Bool, true, false, Option, none,
  some, [], ◌∷◌, ◌++◌, show_ℕ, is_empty, arith,
}
use streamgive_backend.Db.{Database}
use streamgive_backend.Db.Exec.{
  Result, ok, Env, Exec, World, Post, NotificationEvent, lift, given, pure, ◌>>=◌, ◌>>◌,
  send_request, prisma, tick,
}
use streamgive_backend.Db.Keeps.{Relation, Keeps, Keeps-modify, Keeps-prisma, keeps_rules}
use streamgive_backend.Db.Split.{bind-split, bind-with, catch-with}
use streamgive_backend.Notifications.Service.Message.{
  Webhooks, WebhookTarget, Outcome, error_name, answered, event_id, truthy,
}
use streamgive_backend.Notifications.Service.Log.{
  find_delivered, record_notification_delivery, create_log, write_log, upsert_log,
}
use streamgive_backend.Notifications.Service.Receiver.{
  is_hex_digest, is_from_streamgive, post_of-accepted,
}
use streamgive_backend.Notifications.Service.Webhook.{
  post_of, post_event, deliver, deliver_at, deliver_as, notify_webhook_target,
}

-- Nothing is sent, and time goes on.
abbrev forward : Relation
forward = record {
  holds = λ v w. (w.posts ≡ v.posts) × (v.calls ≤ w.calls);
  same = λ w. (refl, omega arith);
  after = λ a b. (b.0 ∙ a.0, omega (arith, a.1, b.1));
  ticks = λ w. (refl, omega arith);
  rolls = λ v w h. h;
}

module _ (env : Env) where
  prisma-Forward : {A : Type 0} (f : Database → Result A × Database) → Keeps forward (prisma env f)
  prisma-Forward f = Keeps-prisma env f (λ w. (refl, omega arith))

  ruleset forward_rules = (keeps_rules, prisma-Forward)

  find_delivered-Forward :
      (id : Option String) (channel : String) → Keeps forward (find_delivered env id channel)
  unfolding find_delivered
  find_delivered-Forward none channel = search forward_rules
  find_delivered-Forward (some id) channel = search forward_rules depth 10

  write_log-Forward :
      (event : NotificationEvent) (channel : String) (outcome : Outcome)
      → Keeps forward (write_log env event channel outcome)
  unfolding write_log upsert_log create_log
  write_log-Forward event channel outcome = search forward_rules depth 10

  count-Forward : (b : Bool) → Keeps forward (record_notification_delivery env b)
  unfolding record_notification_delivery
  count-Forward b = Keeps-modify _ (λ w. (refl, omega arith))

  module _ (hooks : Webhooks) (event : NotificationEvent) (target : WebhookTarget) (secret : String)
      (configured : truthy target.secret ≡ some secret)
      (hex : (payload : String) → is_hex_digest (hooks.hmac secret payload) ≡ true)
      (drawn : (n : ℕ) → is_empty (env.uuid n) ≡ false)
      (named : (id : String) → hooks.delivery_id ≡ ok (some id) → is_empty id ≡ false) where
    -- A receiver whose clock is near the time `sent` accepts the request.
    abbrev Accepted : (sent : ℕ) → Post → Type 0
    Accepted sent post =
        (now : ℕ)
        → sent ≤ now + 300000
        → now ≤ sent + 299000
        → is_from_streamgive hooks.hmac secret now post ≡ true

    abbrev pub Sent : World → World → Type 0
    Sent w v =
        (v.posts ≡ w.posts)
        ⊎ ((post : Post) × (n : ℕ) × (w.calls ≤ n)
            × (n < v.calls)
            × (v.posts ≡ w.posts ++ post ∷ [])
            × (post.url ≡ target.url)
            × Accepted (env.now n) post)

    Sent-kept : (w v u : World) → Sent w v → forward.holds v u → Sent w u
    Sent-kept w v u (inl same) e = inl (e.0 ∙ same)
    Sent-kept w v u (inr (post, n, low, high, sent, to, accepted)) e =
        inr (post, n, low, omega (arith, high, e.1), e.0 ∙ sent, to, accepted)

    -- The clock has been read, at the call `n`, and nothing is sent yet.
    abbrev Read : ℕ → World → World → Type 0
    Read n w v = (v.posts ≡ w.posts) × ((w.calls ≤ n) × (n < v.calls))

    -- Nothing is sent after `m`.
    following :
        {A B : Type 0} (m : Exec A) (f : A → Exec B) (w v : World)
        → Sent w (m v).1
        → ((a : A) → Keeps forward (f a))
        → Sent w ((m >>= f) v).1
    following m f w v s k =
        bind-with (λ r. Sent w r.1) (λ r. Sent w r.1) m f v s
          (λ a u q. Sent-kept w u (f a u).1 q ((k a).at u)) (λ e u q. q)

    post_event-posts :
        (post : Post) (n : ℕ) (w v : World)
        → Read n w v
        → ((post_event env hooks post v).1.posts ≡ w.posts ++ post ∷ [])
          × (n < (post_event env hooks post v).1.calls)
    unfolding post_event
    post_event-posts post n w v e =
        let P : World → Type 0 = λ u. (u.posts ≡ w.posts ++ post ∷ []) × (n < u.calls) in
        let Q : Result Outcome × World → Type 0 = λ r. P r.1 in
        catch-with Q Q (send_request env post >>= λ status. pure (answered status))
          (λ e. pure (record { success = false; problem = some (error_name e) })) v
          (bind-with (λ r. P r.1) Q (send_request env post) (λ status. pure (answered status)) v
            (ap (λ ps. ps ++ post ∷ []) e.0, omega (arith, e.1)) (λ a u q. q) (λ e u q. q))
          (λ a u q. q) (λ e u q. q)

    post_event-Sent :
        (n : ℕ) (id : String) (w v : World)
        → is_empty id ≡ false
        → Read n w v
        → Sent w
            (post_event env hooks
              (post_of env hooks event target (show_ℕ (env.now n / 1000)) id)
              v).1
    unfolding post_of
    post_event-Sent n id w v i e =
        let post = post_of env hooks event target (show_ℕ (env.now n / 1000)) id in
        let (sent, high) = post_event-posts post n w v e in
        inr (
          post,
          n,
          e.1.0,
          high,
          sent,
          refl,
          λ now. post_of-accepted env hooks event target secret configured hex (env.now n) now id i,
        )

    deliver_as-Sent :
        (n : ℕ) (id : String) (w v : World)
        → is_empty id ≡ false
        → Read n w v
        → Sent w (deliver_as env hooks event target (show_ℕ (env.now n / 1000)) id v).1
    unfolding deliver_as
    deliver_as-Sent n id w v i e =
        following
          (post_event env hooks (post_of env hooks event target (show_ℕ (env.now n / 1000)) id))
          (λ outcome.
            record_notification_delivery env outcome.success
            >> (write_log env event target.channel outcome >> pure outcome.success))
          w v (post_event-Sent n id w v i e)
          (λ outcome. search (keeps_rules, count-Forward, write_log-Forward))

    deliver_at-Sent :
        (n : ℕ) (supplied : Option String) (w v : World)
        → ((id : String) → supplied ≡ some id → is_empty id ≡ false)
        → Read n w v
        → Sent w (deliver_at env hooks event target (env.now n) supplied v).1
    unfolding deliver_at
    deliver_at-Sent n none w v i e =
        deliver_as-Sent n (env.uuid v.calls) w (tick v) (drawn v.calls)
          (e.0, (e.1.0, omega (arith, e.1.1)))
    deliver_at-Sent n (some id) w v i e = deliver_as-Sent n id w v (i id refl) e

    deliver-Sent : (w v : World) → forward.holds w v → Sent w (deliver env hooks event target v).1
    unfolding deliver
    deliver-Sent w v e =
        bind-split (λ r. Sent w r.1) (lift hooks.delivery_id)
          (deliver_at env hooks event target (env.now v.calls)) (tick v)
          (λ supplied given.
            deliver_at-Sent v.calls supplied w (tick v) (λ id same. named id (given ∙ ap ok same))
              (e.0, (e.1, omega arith)))
          (λ thrown given. inl e.0)

    given-Sent :
        (done : Option Bool) (w v : World)
        → forward.holds w v
        → Sent w (given done (deliver env hooks event target) pure v).1
    given-Sent none w v e = deliver-Sent w v e
    given-Sent (some b) w v e = inl e.0

    -- Where a secret is configured, the digests are 64 lower-case hex digits and no delivery id is empty,
    -- a delivery sends nothing, or exactly one request, to the target's URL. The delivery reads the
    -- clock once before it sends, and the receiver of README.md, with this secret and a clock from 300
    -- seconds before this reading to 299 seconds after it, accepts the request. This is so whichever
    -- database calls and requests fail.
    pub notify_webhook_target-Sent :
        (w : World) → Sent w (notify_webhook_target env hooks event target w).1
    unfolding notify_webhook_target
    notify_webhook_target-Sent w =
        let found = find_delivered env (truthy (event_id event)) target.channel in
        bind-with (λ r. forward.holds w r.1) (λ r. Sent w r.1) found
          (λ done. given done (deliver env hooks event target) pure) w
          ((find_delivered-Forward (truthy (event_id event)) target.channel).at w)
          (λ done v e. given-Sent done w v e) (λ e v q. inl q.0)
