-- ===== src/Middleware/AdminAuth/Accepts.antt =====
-- What a request that passes has shown.
use streamgive_backend.Prelude.{
  ℕ, ◌≤◌, String, ◌≡◌, refl, Bool, true, false, Option, none, some, List, [], ◌∷◌, arith, any, ltb,
  nat_eq, if◌then◌else◌, length, ℤ, ◌==◌, ◌⊎◌,
}
use streamgive_backend.Middleware.AdminAuth.{
  Crypto, Request, Headers, Verdict, passed, refused, Used, has_key, set_key, distance, in_seconds,
  max_clock_skew_ms, payload, replay_key, headers, matches, sep53_hash, check_signature,
  check_timestamp, require_admin_signature,
}

module _ {Key : Type 0} (crypto : Crypto Key) where
  -- A signature of 64 bytes that verifies.
  abbrev pub Signs : Key → List ℕ → List ℕ → Type 0
  Signs key hash sig = (length sig ≡ 64) × (crypto.verify key hash sig ≡ some true)

  pub matches-Signs :
      (key : Key) (hash a b : List ℕ)
      → matches crypto key hash (a ∷ b ∷ []) ≡ some true
      → Signs key hash a ⊎ Signs key hash b
  unfolding matches
  matches-Signs key hash a b p = ground arith

  module _ (request : Request) (h : Headers) where
    pub record SignatureShown (seen_at : ℕ) (used after : Used) : Type 0 where
      pub key : Key
      pub registered : crypto.from_public_key h.address ≡ some key
      pub signed :
          let hash = sep53_hash crypto (payload crypto request h.timestamp) in
          Signs key hash (crypto.from_base64 h.signature)
          ⊎ Signs key hash (crypto.from_hex h.signature)
      pub unused : has_key (replay_key crypto request h) used ≡ false
      pub marked : after ≡ set_key (replay_key crypto request h) seen_at used

    check_signature-Shown :
        (seen_at : ℕ) (used : Used)
        → (check_signature crypto seen_at request h used).0 ≡ passed
        → SignatureShown seen_at used (check_signature crypto seen_at request h used).1
    unfolding check_signature
    check_signature-Shown seen_at used p =
        signed_by (crypto.from_public_key h.address) (has_key (replay_key crypto request h) used)
          refl refl p
      where
        answer : Option Bool → Verdict × Used
        answer m = elim m as (λ _. Verdict × Used) [
          | none ↦ (refused 401 "unauthorized", used)
          | some false ↦ (refused 401 "unauthorized", used)
          | some true ↦ (passed, set_key (replay_key crypto request h) seen_at used)
        ]

        hash : List ℕ
        hash = sep53_hash crypto (payload crypto request h.timestamp)

        answer_to : Key → Verdict × Used
        answer_to key = answer (
            matches crypto key hash
              (crypto.from_base64 h.signature ∷ crypto.from_hex h.signature ∷ []))

        verified :
            (key : Key) (m : Option Bool)
            → crypto.from_public_key h.address ≡ some key
            → has_key (replay_key crypto request h) used ≡ false
            → matches crypto key hash
                (crypto.from_base64 h.signature ∷ crypto.from_hex h.signature ∷ [])
              ≡ m
            → (answer m).0 ≡ passed
            → SignatureShown seen_at used (answer m).1
        verified key none k u e p = ground arith
        verified key (some false) k u e p = ground arith
        verified key (some true) k u e p = record {
          key = key;
          registered = k;
          signed =
              matches-Signs key hash (crypto.from_base64 h.signature) (crypto.from_hex h.signature)
                e;
          unused = u;
          marked = refl;
        }

        signed_by :
            (found : Option Key) (replayed : Bool)
            → crypto.from_public_key h.address ≡ found
            → has_key (replay_key crypto request h) used ≡ replayed
            → (elim found as (λ _. Verdict × Used) [
              | none ↦ (refused 401 "unauthorized", used)
              | some key ↦
                  if replayed then (refused 401 "replayed_signature", used) else answer_to key
            ]).0
              ≡ passed
            → SignatureShown seen_at used
                (elim found as (λ _. Verdict × Used) [
                  | none ↦ (refused 401 "unauthorized", used)
                  | some key ↦
                      if replayed then (refused 401 "replayed_signature", used) else answer_to key
                ]).1
        signed_by none replayed k u p = ground arith
        signed_by (some key) true k u p = ground arith
        signed_by (some key) false k u p = verified key _ k u refl p

    pub record TimestampShown (now : ℕ) : Type 0 where
      pub timestamp : ℤ
      pub read : crypto.number h.timestamp ≡ some timestamp
      pub milliseconds : in_seconds timestamp ≡ false
      pub fresh : distance now timestamp ≤ 300000

    check_timestamp-Shown :
        (now seen_at : ℕ) (used : Used)
        → (check_timestamp crypto now seen_at request h used).0 ≡ passed
        → TimestampShown now
          × SignatureShown seen_at used (check_timestamp crypto now seen_at request h used).1
    unfolding check_timestamp
    check_timestamp-Shown now seen_at used p = read (crypto.number h.timestamp) refl p
      where
        rest : Verdict × Used
        rest = check_signature crypto seen_at request h used

        after : ℤ → Bool → Bool → Verdict × Used
        after t seconds stale =
            if seconds
            then (refused 401 "timestamp_unit_mismatch", used)
            else if stale
            then (refused 401 "stale_signature", used)
            else rest

        fresh :
            (t : ℤ) (seconds stale : Bool)
            → crypto.number h.timestamp ≡ some t
            → in_seconds t ≡ seconds
            → ltb max_clock_skew_ms (distance now t) ≡ stale
            → (after t seconds stale).0 ≡ passed
            → TimestampShown now × SignatureShown seen_at used (after t seconds stale).1
        fresh t true stale k a b p = ground arith
        fresh t false true k a b p = ground arith
        fresh t false false k a b p = (
          record { timestamp = t; read = k; milliseconds = a; fresh = ground arith },
          check_signature-Shown seen_at used p,
        )

        check : Option ℤ → Verdict × Used
        check n = elim n as (λ _. Verdict × Used) [
          | none ↦ (refused 401 "stale_signature", used)
          | some t ↦ after t (in_seconds t) (ltb max_clock_skew_ms (distance now t))
        ]

        read :
            (n : Option ℤ)
            → crypto.number h.timestamp ≡ n
            → (check n).0 ≡ passed
            → TimestampShown now × SignatureShown seen_at used (check n).1
        read none k p = ground arith
        read (some t) k p = fresh t _ _ k refl refl p

  pub record Shown (allowed : List String) (now seen_at : ℕ) (request : Request) (used after : Used)
      : Type 0 where
    pub sent : Headers
    pub complete : headers crypto request ≡ some sent
    pub listed : any (λ other. other == sent.address) allowed ≡ true
    pub timestamp : TimestampShown request sent now
    pub signature : SignatureShown request sent seen_at used after

  pub require_admin_signature-Shown :
      (allowed : List String) (now seen_at : ℕ) (request : Request) (used : Used)
      → (require_admin_signature crypto allowed now seen_at request used).0 ≡ passed
      → Shown allowed now seen_at request used
          (require_admin_signature crypto allowed now seen_at request used).1
  unfolding require_admin_signature
  require_admin_signature-Shown allowed now seen_at request used p =
      configured (nat_eq (length allowed) 0) p
    where
      listed : Headers → Bool → Verdict × Used
      listed h b =
          if b
          then check_timestamp crypto now seen_at request h used
          else (refused 401 "unauthorized", used)

      named :
          (h : Headers) (b : Bool)
          → headers crypto request ≡ some h
          → any (λ other. other == h.address) allowed ≡ b
          → (listed h b).0 ≡ passed
          → Shown allowed now seen_at request used (listed h b).1
      named h false k a p = ground arith
      named h true k a p =
          let (t, s) = check_timestamp-Shown request h now seen_at used p in
          record { sent = h; complete = k; listed = a; timestamp = t; signature = s }

      sent : Option Headers → Verdict × Used
      sent o = elim o as (λ _. Verdict × Used) [
        | none ↦ (refused 401 "unauthorized", used)
        | some h ↦ listed h (any (λ other. other == h.address) allowed)
      ]

      complete :
          (o : Option Headers)
          → headers crypto request ≡ o
          → (sent o).0 ≡ passed
          → Shown allowed now seen_at request used (sent o).1
      complete none k p = ground arith
      complete (some h) k p = named h _ k refl p

      answer : Bool → Verdict × Used
      answer b =
          if b
          then (refused 503 "admin_auth_not_configured", used)
          else sent (headers crypto request)

      configured :
          (b : Bool) → (answer b).0 ≡ passed → Shown allowed now seen_at request used (answer b).1
      configured true p = ground arith
      configured false p = complete _ refl p
