-- ===== src/Middleware/AdminAuth.antt =====
-- src/middleware/adminAuth.ts: requests signed by an admin's wallet, and the replay cache. A
-- timestamp that `Number` reads as a fraction of a millisecond is not modelled.
pub mod Accepts
pub mod Replays
use Prim.Native.Char.{Char, code}
use streamgive_backend.Prelude.{
  ℕ, ◌+◌, ◌-◌, String, Bool, true, false, not, ◌&&◌, ◌||◌, Option, none, some, List, [], ◌∷◌, ◌++◌,
  map, ◌==◌, any, ltb, leb, nat_eq, if◌then◌else◌, ◌<>◌, length, select, delete_where, ℤ, pos,
  negsuc,
}

abbrev pub max_clock_skew_ms : ℕ
max_clock_skew_ms = 300000

abbrev seconds_timestamp_maxmagni : ℕ
seconds_timestamp_maxmagni = 100000000000

abbrev ed25519_signature_bytes : ℕ
ed25519_signature_bytes = 64

-- The cryptography and the conversions that Node and the Stellar SDK provide. `none` is a call
-- that throws; for `number`, a value that is not finite.
pub record Crypto (Key : Type 0) : Type 0 where
  pub from_public_key : String → Option Key
  pub verify : Key → List ℕ → List ℕ → Option Bool
  pub from_base64 : String → List ℕ
  pub from_hex : String → List ℕ
  pub sha256 : List ℕ → List ℕ
  pub utf8 : String → List ℕ
  pub to_hex : List ℕ → String
  pub number : String → Option ℤ

pub record Request : Type 0 where
  pub method : String
  pub url : String
  pub address : Option String
  pub signature : Option String
  pub timestamp : Option String
  pub raw_body : List ℕ

-- The three headers when each is a string.
pub record Headers : Type 0 where
  pub address : String
  pub signature : String
  pub timestamp : String

pub data Verdict : Type 0 where
  passed : Verdict
  refused : (status : ℕ) (problem : String) → Verdict

-- `usedSignatures`
abbrev pub Used : Type 0
Used = List (String × ℕ)

pub prune_used_signatures : ℕ → Used → Used
prune_used_signatures now = delete_where (λ entry. ltb (entry.1 + max_clock_skew_ms) now)

abbrev pub has_key : String → Used → Bool
has_key key used = any (λ entry. entry.0 == key) used

-- `Map.set`: a key that is there keeps its place.
abbrev pub set_key : String → ℕ → Used → Used
set_key key at [] = (key, at) ∷ []
set_key key at ((other, t) ∷ rest) =
    let after = set_key key at rest in if other == key then (key, at) ∷ rest else (other, t) ∷ after

-- `text.split(',')`: the current piece is put before the pieces that follow.
pub put_before : Char → List String → List String
put_before c [] = String.◌∷◌ c "" ∷ []
put_before c (piece ∷ pieces) = String.◌∷◌ c piece ∷ pieces

pub split_comma : String → List String
unfolding put_before
split_comma String.[] = "" ∷ []
split_comma (String.◌∷◌ c s) =
    let pieces = split_comma s in if nat_eq (code c) b',' then "" ∷ pieces else put_before c pieces

-- The white space and the line ends that `trim` removes.
abbrev is_space : Char → Bool
is_space c =
    let n = code c in
    (leb 9 n && leb n 13)
    || (nat_eq n 32
        || (nat_eq n 160
            || (nat_eq n 5760
                || ((leb 8192 n && leb n 8202)
                    || (nat_eq n 8232
                        || (nat_eq n 8233
                            || (nat_eq n 8239
                                || (nat_eq n 8287 || (nat_eq n 12288 || nat_eq n 65279)))))))))

pub trim_start : String → String
trim_start String.[] = ""
trim_start (String.◌∷◌ c s) = let rest = trim_start s in if is_space c then rest else String.◌∷◌ c s

-- A text of spaces only is empty.
pub trim_end : String → String
trim_end String.[] = ""
trim_end (String.◌∷◌ c s) =
    let rest = trim_end s in if is_space c && rest == "" then "" else String.◌∷◌ c rest

unfoldable pub trim : String → String
unfolding trim_start trim_end
trim s = trim_end (trim_start s)

-- `[...new Set(texts)]`: each text where it stands first.
pub unique : List String → List String → List String
unique seen [] = []
unique seen (x ∷ xs) =
    let skipped = unique seen xs in
    let kept = unique (x ∷ seen) xs in if any (λ other. other == x) seen then skipped else x ∷ kept

unfoldable pub configured_admin_addresses :
    (admin_addresses admin_address : Option String) → List String
unfolding split_comma trim unique
configured_admin_addresses admin_addresses admin_address =
    let listed = split_comma (elim admin_addresses [ none ↦ "" | some text ↦ text ]) in
    let single = elim admin_address as (λ _. List String) [
      | none ↦ []
      | some text ↦ if text == "" then [] else text ∷ []
    ] in
    unique [] (select (λ address. not (address == "")) (map trim (single ++ listed)))

abbrev unauthorized : Verdict
unauthorized = refused 401 "unauthorized"

-- `Math.abs(now - timestamp)`
abbrev pub distance : ℕ → ℤ → ℕ
distance now (pos t) = (now - t) + (t - now)
distance now (negsuc t) = now + t + 1

-- `timestamp > 0 && timestamp < SECONDS_TIMESTAMP_MAXMAGNI`
abbrev pub in_seconds : ℤ → Bool
in_seconds (pos t) = ltb 0 t && ltb t seconds_timestamp_maxmagni
in_seconds (negsuc t) = false

module _ {Key : Type 0} (crypto : Crypto Key) where
  unfoldable pub sep53_hash : String → List ℕ
  sep53_hash message =
      crypto.sha256 (crypto.utf8 "Stellar Signed Message:\n" ++ crypto.utf8 message)

  pub body_hash : List ℕ → String
  body_hash body = crypto.to_hex (crypto.sha256 body)

  abbrev pub payload : Request → String → String
  payload request timestamp =
      request.method <> ":" <> request.url <> ":" <> timestamp <> ":" <> body_hash request.raw_body

  abbrev pub replay_key : Request → Headers → String
  replay_key request h =
      h.address <> ":" <> request.method <> ":" <> request.url <> ":" <> h.timestamp

  -- `candidates.find(…)`: whether one of the two decodings has 64 bytes and verifies.
  unfoldable pub matches : Key → List ℕ → List (List ℕ) → Option Bool
  matches key hash [] = some false
  matches key hash (sig ∷ sigs) =
      let rest = matches key hash sigs in
      if nat_eq (length sig) ed25519_signature_bytes
      then elim (crypto.verify key hash sig) [
        | none ↦ none
        | some true ↦ some true
        | some false ↦ rest
      ]
      else rest

  -- The `try` block; `seen_at` is its reading of the clock.
  pub check_signature : ℕ → Request → Headers → Used → Verdict × Used
  unfolding sep53_hash body_hash matches
  check_signature seen_at request h used =
      elim (crypto.from_public_key h.address) as (λ _. Verdict × Used) [
        | none ↦ (unauthorized, used)
        | some key ↦
            if has_key (replay_key request h) used
            then (refused 401 "replayed_signature", used)
            else elim (matches key (sep53_hash (payload request h.timestamp))
                (crypto.from_base64 h.signature ∷ crypto.from_hex h.signature ∷ [])) [
                  | none ↦ (unauthorized, used)
                  | some false ↦ (unauthorized, used)
                  | some true ↦ (passed, set_key (replay_key request h) seen_at used)
                ]
      ]

  pub check_timestamp : ℕ → ℕ → Request → Headers → Used → Verdict × Used
  unfolding check_signature
  check_timestamp now seen_at request h used =
      elim (crypto.number h.timestamp) as (λ _. Verdict × Used) [
        | none ↦ (refused 401 "stale_signature", used)
        | some timestamp ↦
            if in_seconds timestamp
            then (refused 401 "timestamp_unit_mismatch", used)
            else if ltb max_clock_skew_ms (distance now timestamp)
            then (refused 401 "stale_signature", used)
            else check_signature seen_at request h used
      ]

  abbrev pub headers : Request → Option Headers
  headers request = elim request.address [
    | none ↦ none
    | some address ↦ elim request.signature [
      | none ↦ none
      | some signature ↦ elim request.timestamp [
        | none ↦ none
        | some timestamp ↦
            some (record { address = address; signature = signature; timestamp = timestamp })
      ]
    ]
  ]

  -- `now` and `seen_at` are the two readings of the clock.
  unfoldable pub require_admin_signature : List String → ℕ → ℕ → Request → Used → Verdict × Used
  unfolding check_timestamp
  require_admin_signature allowed now seen_at request used =
      if nat_eq (length allowed) 0
      then (refused 503 "admin_auth_not_configured", used)
      else elim (headers request) as (λ _. Verdict × Used) [
        | none ↦ (unauthorized, used)
        | some h ↦
            if any (λ other. other == h.address) allowed
            then check_timestamp now seen_at request h used
            else (unauthorized, used)
      ]
