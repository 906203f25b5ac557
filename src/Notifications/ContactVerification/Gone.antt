-- ===== src/Notifications/ContactVerification/Gone.antt =====
-- Challenges with a hash that are gone: src/notifications/contactVerification.ts.
use streamgive_backend.Prelude.{
  ℕ, String, ◌≡◌, ◌≢◌, refl, arith, ◌∙◌, Bool, true, false, Option, none, some, any, find_first,
  leb, nat_eq, find_first-delete_where, Bool-cases, inl, inr,
}
use streamgive_backend.Db.{ContactChallenge}
use streamgive_backend.Db.Exec.{Result, ok, Env, World, tick, pure, ◌>>=◌, ◌>>◌}
use streamgive_backend.Db.Keeps.{Relation, Keeps, keeps_rules}
use streamgive_backend.Db.Split.{bind-with, if-split, prisma-split, transaction-split, query-bind}
use streamgive_backend.Middleware.AdminAuth.{Crypto}
use streamgive_backend.Notifications.ContactVerification.{
  has_token_hash, has_application_id, hash_token, find_challenge, delete_challenges, mark_row,
  mark_verified, consume, finish_redeem, redeem_at, redeem, redeem_found, verify_contact_token,
}

module _ (env : Env) {Key : Type 0} (crypto : Crypto Key) (token_hash : String) where
  -- No challenge has this hash.
  abbrev pub Gone : World → Type 0
  Gone w = find_first (has_token_hash token_hash) w.database.contact_challenges ≡ none

  abbrev pub gone_kept : Relation
  gone_kept = record {
    holds = λ v w. Gone v → Gone w;
    same = λ w h. h;
    after = λ a b h. b (a h);
    ticks = λ w h. h;
    rolls = λ v w k h. h;
  }

  pub mark_row-Gone : (id : String) (at n : ℕ) → Keeps gone_kept (mark_row env crypto id at n)
  unfolding mark_row
  mark_row-Gone id at n = record {
    at = λ w.
        prisma-split env (λ r. Gone w → Gone r.1) _ w (λ e h. h)
          (elim (Bool-cases (any (has_application_id id) w.database.applications)) [
            | inl there ↦ rw there (λ h. h)
            | inr gone ↦ rw gone (λ h. h)
          ]);
  }

  pub finish_redeem-Gone :
      (challenge : ContactChallenge) (b : Bool)
      → Keeps gone_kept (finish_redeem env crypto challenge b)
  unfolding finish_redeem mark_verified
  finish_redeem-Gone challenge false = search keeps_rules
  finish_redeem-Gone challenge true = search (keeps_rules, mark_row-Gone) depth 12

  -- Whatever is returned, the challenges are gone.
  abbrev Cleared : {A : Type 0} → Result A × World → Type 0
  Cleared {A} r = (a : A) → r.0 ≡ ok a → Gone r.1

  -- Where the link is accepted, the challenges are gone.
  abbrev Spent : Result Bool × World → Type 0
  Spent r = r.0 ≡ ok true → Gone r.1

  delete_challenges-Cleared : (w : World) → Cleared (delete_challenges env crypto token_hash w)
  unfolding delete_challenges
  delete_challenges-Cleared w =
      prisma-split env Cleared _ w (λ e a h. ground (arith, h))
        (λ a h. find_first-delete_where (has_token_hash token_hash) w.database.contact_challenges)

  consume-Cleared : (w : World) → Cleared (consume env crypto token_hash w)
  unfolding consume
  consume-Cleared w =
      bind-with Cleared Cleared (delete_challenges env crypto token_hash)
        (λ consumed. pure (nat_eq consumed 1)) w (delete_challenges-Cleared w)
        (λ a v q b h. q a refl) (λ e v q a h. ground (arith, h))

  redeem_at-Spent :
      (challenge : ContactChallenge) (now : ℕ) (w : World)
      → Spent (redeem_at env crypto token_hash challenge now w)
  unfolding redeem_at
  redeem_at-Spent challenge now w =
      if-split Spent (leb challenge.expires_at now)
        (delete_challenges env crypto token_hash >> pure false)
        (consume env crypto token_hash >>= finish_redeem env crypto challenge) w
        (λ late.
          bind-with Cleared Spent (delete_challenges env crypto token_hash) (λ _. pure false) w
            (delete_challenges-Cleared w) (λ a v q h. ground (arith, h))
            (λ e v q h. ground (arith, h)))
        (λ early.
          bind-with Cleared Spent (consume env crypto token_hash)
            (finish_redeem env crypto challenge) w (consume-Cleared w)
            (λ a v q h. (finish_redeem-Gone challenge a).at v (q a refl))
            (λ e v q h. ground (arith, h)))

  redeem_found-Spent :
      (found : Option ContactChallenge) (w : World)
      → Spent (redeem_found env crypto token_hash found w)
  unfolding redeem_found redeem
  redeem_found-Spent none w = λ h. ground (arith, h)
  redeem_found-Spent (some challenge) w = redeem_at-Spent challenge (env.now w.calls) (tick w)

module _ (env : Env) {Key : Type 0} (crypto : Crypto Key) (token : String) where
  pub verify_contact_token-Spent :
      (w : World)
      → Spent env crypto (hash_token env crypto token) (verify_contact_token env crypto token w)
  unfolding verify_contact_token find_challenge
  verify_contact_token-Spent w =
      let hash = hash_token env crypto token in
      let body = find_challenge env crypto hash >>= redeem_found env crypto hash in
      let done : Spent env crypto hash (body w) =
        query-bind env (Spent env crypto hash)
          (λ db. find_first (has_token_hash hash) db.contact_challenges)
          (redeem_found env crypto hash) w (λ e h. ground (arith, h))
          (redeem_found-Spent env crypto hash _ (tick w)) in
      transaction-split env (Spent env crypto hash) body w (λ e h. ground (arith, h))
        (λ e h. ground (arith, h)) (λ a e h. done (e ∙ h))

  pub refuses :
      (w : World)
      → Gone env crypto (hash_token env crypto token) w
      → (verify_contact_token env crypto token w).0 ≢ ok true
  unfolding verify_contact_token find_challenge redeem_found
  refuses w gone =
      let hash = hash_token env crypto token in
      let body = find_challenge env crypto hash >>= redeem_found env crypto hash in
      let done : (body w).0 ≢ ok true =
        query-bind env (λ r. r.0 ≢ ok true)
          (λ db. find_first (has_token_hash hash) db.contact_challenges)
          (redeem_found env crypto hash) w (λ e h. ground (arith, h))
          (rw gone (λ h. ground (arith, h))) in
      transaction-split env (λ r. r.0 ≢ ok true) body w (λ e h. ground (arith, h))
        (λ e h. ground (arith, h)) (λ a e h. done (e ∙ h))
