-- ===== src/Middleware/AdminAuth/Replays.antt =====
-- A signed request is not accepted twice.
use streamgive_backend.Prelude.{
  ℕ, ◌≤◌, ◌<◌, ◌+◌, String, ◌≡◌, ◌≢◌, ◌⊎◌, inl, inr, refl, sym, ap, ◌∙◌, Bool, true, false, ◌&&◌,
  Option, none, some, List, [], ◌∷◌, arith, any, ltb, leb, if◌then◌else◌, All, ℤ, pos, negsuc, ◌==◌,
  ◌<>◌, nat_eq, length, eq_iff, eq_refl,
}
use streamgive_backend.Middleware.AdminAuth.{
  Crypto, Request, Headers, Verdict, passed, refused, Used, has_key, set_key, distance,
  prune_used_signatures, matches, sep53_hash, payload, in_seconds, max_clock_skew_ms, replay_key,
  headers, check_signature, check_timestamp, require_admin_signature,
}
use streamgive_backend.Middleware.AdminAuth.Accepts.{require_admin_signature-Shown}

-- What happens to the cache: the timer prunes it, or a request is checked.
pub data Step : Type 0 where
  pruned : (now : ℕ) → Step
  asked : (now seen_at : ℕ) (request : Request) → Step

-- The step happens between two readings of the clock.
abbrev pub Between : ℕ → ℕ → Step → Type 0
Between start finish (pruned now) = now ≤ finish
Between start finish (asked now seen_at request) = start ≤ seen_at

-- The key was put in at `start` or later.
abbrev kept_since : String → ℕ → Used → Bool
kept_since key start = any (λ entry. entry.0 == key && leb start entry.1)

kept-has_key :
    (key : String) (start : ℕ) (used : Used)
    → kept_since key start used ≡ true
    → has_key key used ≡ true
kept-has_key key start [] h = h
kept-has_key key start ((other, t) ∷ used) h = ground (arith, kept-has_key key start used)

kept-set_key_same :
    (key : String) (start at : ℕ) (used : Used)
    → start ≤ at
    → kept_since key start (set_key key at used) ≡ true
kept-set_key_same key start at [] h = ground (arith, eq_refl key)
kept-set_key_same key start at ((other, t) ∷ used) h =
    ground (arith, eq_refl key, kept-set_key_same key start at used h)

kept-set_key :
    (key other : String) (start at : ℕ) (used : Used)
    → start ≤ at
    → kept_since key start used ≡ true
    → kept_since key start (set_key other at used) ≡ true
kept-set_key key other start at [] h k = ground arith
kept-set_key key other start at ((name, t) ∷ used) h k = ground (
  arith,
  kept-set_key key other start at used h,
  eq_iff name other,
  eq_iff name key,
  eq_iff other key,
)

kept-prune :
    (key : String) (start now : ℕ) (used : Used)
    → now ≤ start + 300000
    → kept_since key start used ≡ true
    → kept_since key start (prune_used_signatures now used) ≡ true
unfolding prune_used_signatures
kept-prune key start now [] h k = k
kept-prune key start now ((other, t) ∷ used) h k = ground (arith, kept-prune key start now used h)

module _ {Key : Type 0} (crypto : Crypto Key) (allowed : List String) where
  pub step : Step → Used → Used
  step (pruned now) used = prune_used_signatures now used
  step (asked now seen_at request) used =
      (require_admin_signature crypto allowed now seen_at request used).1

  pub run : List Step → Used → Used
  unfolding step
  run [] used = used
  run (s ∷ ss) used = run ss (step s used)

  -- A request leaves the cache as it is, or marks one key.
  abbrev Marks : ℕ → Used → Used → Type 0
  Marks seen_at used after = (after ≡ used) ⊎ ((key : String) × (after ≡ set_key key seen_at used))

  signature-Marks :
      (seen_at : ℕ) (request : Request) (h : Headers) (used : Used)
      → Marks seen_at used (check_signature crypto seen_at request h used).1
  unfolding check_signature
  signature-Marks seen_at request h used =
      elim (crypto.from_public_key h.address)
        as (λ found.
          Marks seen_at used
            (elim found as (λ _. Verdict × Used) [
              | none ↦ (refused 401 "unauthorized", used)
              | some key ↦
                  if has_key (replay_key crypto request h) used
                  then (refused 401 "replayed_signature", used)
                  else answer (found_match key)
            ]).1) [
              | none ↦ inl refl
              | some key ↦ unused (has_key (replay_key crypto request h) used) (found_match key)
            ]
    where
      answer : Option Bool → Verdict × Used
      answer m = elim m as (λ _. Verdict × Used) [
        | none ↦ (refused 401 "unauthorized", used)
        | some false ↦ (refused 401 "unauthorized", used)
        | some true ↦ (passed, set_key (replay_key crypto request h) seen_at used)
      ]

      found_match : Key → Option Bool
      found_match key =
          matches crypto key (sep53_hash crypto (payload crypto request h.timestamp))
            (crypto.from_base64 h.signature ∷ crypto.from_hex h.signature ∷ [])

      unused :
          (b : Bool) (m : Option Bool)
          → Marks seen_at used (if b then (refused 401 "replayed_signature", used) else answer m).1
      unused true m = inl refl
      unused false none = inl refl
      unused false (some false) = inl refl
      unused false (some true) = inr (replay_key crypto request h, refl)

  timestamp-Marks :
      (now seen_at : ℕ) (request : Request) (h : Headers) (used : Used)
      → Marks seen_at used (check_timestamp crypto now seen_at request h used).1
  unfolding check_timestamp
  timestamp-Marks now seen_at request h used = read (crypto.number h.timestamp)
    where
      rest : Verdict × Used
      rest = check_signature crypto seen_at request h used

      fresh :
          (seconds stale : Bool)
          → Marks seen_at used
              (if seconds
                then (refused 401 "timestamp_unit_mismatch", used)
                else if stale
                then (refused 401 "stale_signature", used)
                else rest).1
      fresh true stale = inl refl
      fresh false true = inl refl
      fresh false false = signature-Marks seen_at request h used

      read :
          (n : Option ℤ)
          → Marks seen_at used
              (elim n as (λ _. Verdict × Used) [
                | none ↦ (refused 401 "stale_signature", used)
                | some t ↦
                    if in_seconds t
                    then (refused 401 "timestamp_unit_mismatch", used)
                    else if ltb max_clock_skew_ms (distance now t)
                    then (refused 401 "stale_signature", used)
                    else rest
              ]).1
      read none = inl refl
      read (some t) = fresh (in_seconds t) (ltb max_clock_skew_ms (distance now t))

  request-Marks :
      (now seen_at : ℕ) (request : Request) (used : Used)
      → Marks seen_at used (require_admin_signature crypto allowed now seen_at request used).1
  unfolding require_admin_signature
  request-Marks now seen_at request used =
      configured (nat_eq (length allowed) 0) (headers crypto request)
    where
      listed :
          (h : Headers) (b : Bool)
          → Marks seen_at used
              (if b
                then check_timestamp crypto now seen_at request h used
                else (refused 401 "unauthorized", used)).1
      listed h true = timestamp-Marks now seen_at request h used
      listed h false = inl refl

      configured :
          (b : Bool) (o : Option Headers)
          → Marks seen_at used
              (if b
                then (refused 503 "admin_auth_not_configured", used)
                else (elim o as (λ _. Verdict × Used) [
                  | none ↦ (refused 401 "unauthorized", used)
                  | some h ↦
                      if any (λ other. other == h.address) allowed
                      then check_timestamp crypto now seen_at request h used
                      else (refused 401 "unauthorized", used)
                ])).1
      configured true o = inl refl
      configured false none = inl refl
      configured false (some h) = listed h (any (λ other. other == h.address) allowed)

  kept-step :
      (key : String) (start finish : ℕ) (s : Step) (used : Used)
      → finish ≤ start + 300000
      → Between start finish s
      → kept_since key start used ≡ true
      → kept_since key start (step s used) ≡ true
  unfolding step
  kept-step key start finish (pruned now) used f b k = kept-prune key start now used (omega arith) k
  kept-step key start finish (asked now seen_at request) used f b k =
      elim (request-Marks now seen_at request used) [
        | inl e ↦ rw e k
        | inr (other, e) ↦ rw e (kept-set_key key other start seen_at used b k)
      ]

  kept-run :
      (key : String) (start finish : ℕ) (ss : List Step) (used : Used)
      → finish ≤ start + 300000
      → All (Between start finish) ss
      → kept_since key start used ≡ true
      → kept_since key start (run ss used) ≡ true
  unfolding run
  kept-run key start finish [] used f b k = k
  kept-run key start finish (s ∷ ss) used f (b, bs) k =
      kept-run key start finish ss (step s used) f bs (kept-step key start finish s used f b k)

  -- The request repeats another, with any signature and any body.
  pub record Repeats (first again : Request) : Type 0 where
    pub method : again.method ≡ first.method
    pub url : again.url ≡ first.url
    pub address : again.address ≡ first.address
    pub timestamp : again.timestamp ≡ first.timestamp

  -- The number in the timestamp header is at most `limit`.
  abbrev pub dated_by : ℕ → Request → Bool
  dated_by limit request = elim request.timestamp [
    | none ↦ true
    | some text ↦ elim (crypto.number text) [ some (pos t) ↦ leb t limit | _ ↦ true ]
  ]

  dated_by-le :
      (limit : ℕ) (request : Request) (text : String) (t : ℕ)
      → dated_by limit request ≡ true
      → request.timestamp ≡ some text
      → crypto.number text ≡ some (pos t)
      → t ≤ limit
  dated_by-le limit request text t d e n = ground arith

  sent_headers :
      (request : Request) (h : Headers)
      → headers crypto request ≡ some h
      → (request.address ≡ some h.address) × (request.timestamp ≡ some h.timestamp)
  sent_headers request h e = ground arith

  lt_or_le : (a b : ℕ) → (a < b) ⊎ (b ≤ a)
  lt_or_le a b = ground arith

  too_late :
      (start later : ℕ) (t : ℤ)
      → ((n : ℕ) → t ≡ pos n → n ≤ start)
      → start + 300000 < later
      → distance later t ≤ 300000
      → ⊥
  too_late start later (pos n) d l f = omega (arith, d n refl)
  too_late start later (negsuc n) d l f = omega arith

  same_key :
      (first again : Request) (h h' : Headers)
      → Repeats first again
      → headers crypto first ≡ some h
      → headers crypto again ≡ some h'
      → (h'.timestamp ≡ h.timestamp) × (replay_key crypto again h' ≡ replay_key crypto first h)
  same_key first again h h' r e e' =
      let (a, t) = sent_headers first h e in
      let (a', t') = sent_headers again h' e' in
      let address = some-injective (sym a' ∙ r.address ∙ a) in
      let timestamp = some-injective (sym t' ∙ r.timestamp ∙ t) in
      (timestamp, joined address r.method r.url timestamp)
    where
      some-injective : {x y : String} → some x ≡ some y → x ≡ y
      some-injective {x} {y} e = ground arith

      joined :
          {a a' m m' u u' t t' : String}
          → a ≡ a'
          → m ≡ m'
          → u ≡ u'
          → t ≡ t'
          → a <> ":" <> m <> ":" <> u <> ":" <> t ≡ a' <> ":" <> m' <> ":" <> u' <> ":" <> t'
      joined a m u t = rw (a, m, u, t) refl

  -- A request that passed with a timestamp that is not in the future never passes again, with any
  -- signature and body and whenever it is repeated, whatever requests and prunings come between:
  -- requests marked no earlier than it, and prunings no later than the repetition.
  pub passes_once :
      (first again : Request) (used : Used) (now seen_at : ℕ) (between : List Step)
      (later seen_later : ℕ)
      → (require_admin_signature crypto allowed now seen_at first used).0 ≡ passed
      → dated_by seen_at first ≡ true
      → Repeats first again
      → All (Between seen_at later) between
      → (require_admin_signature crypto allowed later seen_later again
          (run between (require_admin_signature crypto allowed now seen_at first used).1)).0
        ≢ passed
  passes_once first again used now seen_at between later seen_later p d r b q =
      let one = require_admin_signature-Shown crypto allowed now seen_at first used p in
      let two =
        require_admin_signature-Shown crypto allowed later seen_later again
          (run between (require_admin_signature crypto allowed now seen_at first used).1) q in
      let (stamp, key) = same_key first again one.sent two.sent r one.complete two.complete in
      let after = (require_admin_signature crypto allowed now seen_at first used).1 in
      let name = replay_key crypto first one.sent in
      elim (lt_or_le (seen_at + 300000) later) [
        | inl late ↦
            too_late seen_at later two.timestamp.timestamp
              (λ n e.
                dated_by-le seen_at first one.sent.timestamp n d
                  (sent_headers first one.sent one.complete).1
                  (sym (ap crypto.number stamp) ∙ two.timestamp.read ∙ ap some e))
              late two.timestamp.fresh
        | inr soon ↦
            let put : kept_since name seen_at after ≡ true =
              rw one.signature.marked (kept-set_key_same name seen_at seen_at used (omega arith)) in
            let kept =
              kept-has_key name seen_at (run between after)
                (kept-run name seen_at later between after soon b put) in
            let unused = two.signature.unused in cc
      ]
