-- ===== src/Routes/Applications/Schema.antt =====
-- The zod schemas of src/routes/ngoApplications.ts. zod's own formats are parameters.
use Prim.Native.Char.{code}
use streamgive_backend.Prelude.{
  ℕ, ◌+◌, String, Bool, true, false, not, ◌&&◌, ◌||◌, Option, none, some, List, [], ◌∷◌, ◌==◌,
  codes, to_lower, starts_with, length, ltb, leb, nat_eq, if◌then◌else◌, ◌<>◌,
}
use streamgive_backend.Middleware.AdminAuth.{trim}

-- A field of a JSON body or of a query.
pub data Field : Type 0 where
  absent other : Field
  text : String → Field

pub record Zod : Type 0 where
  pub is_email : String → Bool
  pub is_url : String → Bool
  pub is_uuid : String → Bool

-- The length of a JavaScript string, in UTF-16 units.
pub utf16_length : String → ℕ
utf16_length String.[] = 0
utf16_length (String.◌∷◌ c s) = (if ltb 65535 (code c) then 2 else 1) + utf16_length s

abbrev is_base32 : ℕ → Bool
is_base32 c = (leb b'A' c && leb c b'Z') || (leb b'2' c && leb c b'7')

abbrev all_base32 : List ℕ → Bool
all_base32 [] = true
all_base32 (c ∷ cs) = is_base32 c && all_base32 cs

abbrev is_address_codes : List ℕ → Bool
is_address_codes [] = false
is_address_codes (c ∷ cs) = nat_eq c b'G' && (nat_eq (length cs) 55 && all_base32 cs)

-- `/^G[A-Z2-7]{55}$/`
pub is_address : String → Bool
is_address s = is_address_codes (codes s)

unfoldable pub string : Field → Option String
string (text s) = some s
string absent = none
string other = none

abbrev pub when : Bool → String → Option String
when b s = if b then some s else none

unfoldable pub parse_address : Field → Option String
unfolding string is_address
parse_address field = elim (string field) [ none ↦ none | some s ↦ when (is_address s) s ]

-- `z.string().trim().min(1).max(n)`
pub parse_trimmed : ℕ → Field → Option String
unfolding string utf16_length trim
parse_trimmed limit field = elim (string field) [
  | none ↦ none
  | some s ↦ let t = trim s in when (leb 1 (utf16_length t) && leb (utf16_length t) limit) t
]

-- `.optional()`: `some none` is a field that is left out.
pub parse_optional : (String → Option String) → Field → Option (Option String)
parse_optional parse absent = some none
parse_optional parse other = none
parse_optional parse (text s) = elim (parse s) [ none ↦ none | some t ↦ some (some t) ]

abbrev pub at_most : ℕ → String → Option String
at_most limit s = when (leb (utf16_length s) limit) s

-- `val && !/^https?:\/\//i.test(val) ? 'https://' + val : val`
pub with_scheme : String → String
with_scheme s =
    let cs = to_lower (codes s) in
    if s == "" || (starts_with cs (codes "http://") || starts_with cs (codes "https://"))
    then s
    else "https://" <> s

pub record Application : Type 0 where
  pub owner_address : String
  pub name : String
  pub description : String
  pub website : Option String
  pub contact_email : String
  pub country : Option String

pub record Submission : Type 0 where
  pub application : Application
  pub challenge : String
  pub signature : String

pub record SubmissionBody : Type 0 where
  pub owner_address : Field
  pub name : Field
  pub description : Field
  pub website : Field
  pub contact_email : Field
  pub country : Field
  pub challenge : Field
  pub signature : Field

infixl 5 ◌>>=◌
abbrev ◌>>=◌ : {A B : Type 0} → Option A → (A → Option B) → Option B
none >>= f = none
some a >>= f = f a

-- `z.string().min(1)`
pub parse_signature : Field → Option String
unfolding string
parse_signature field = elim (string field) [ none ↦ none | some s ↦ when (not (s == "")) s ]

module _ (zod : Zod) where
  pub parse_website : String → Option String
  unfolding with_scheme utf16_length
  parse_website s =
      let url = with_scheme s in when (zod.is_url url && leb (utf16_length url) 2048) url

  pub parse_email : Field → Option String
  unfolding string utf16_length
  parse_email field = elim (string field) [
    | none ↦ none
    | some s ↦ when (zod.is_email s && leb (utf16_length s) 254) s
  ]

  unfoldable pub parse_uuid : Field → Option String
  unfolding string
  parse_uuid field = elim (string field) [ none ↦ none | some s ↦ when (zod.is_uuid s) s ]

  pub parse_application : SubmissionBody → Option Application
  unfolding parse_address parse_trimmed parse_website parse_email parse_optional
  parse_application body = do
    owner_address ← parse_address body.owner_address
    name ← parse_trimmed 200 body.name
    description ← parse_trimmed 5000 body.description
    website ← parse_optional parse_website body.website
    contact_email ← parse_email body.contact_email
    country ← parse_optional (at_most 100) body.country
    some (record {
      owner_address = owner_address;
      name = name;
      description = description;
      website = website;
      contact_email = contact_email;
      country = country;
    })

  unfoldable pub parse_submission : SubmissionBody → Option Submission
  unfolding parse_application parse_uuid parse_signature
  parse_submission body = do
    application ← parse_application body
    challenge ← parse_uuid body.challenge
    signature ← parse_signature body.signature
    some (record { application = application; challenge = challenge; signature = signature })

-- `z.object({ reviewNote: z.string().max(2000).optional() })`
pub parse_review_note : Field → Option (Option String)
unfolding parse_optional utf16_length
parse_review_note = parse_optional (at_most 2000)

-- `z.string().length(43)`
pub parse_token : Field → Option String
unfolding string utf16_length
parse_token field = elim (string field) [
  | none ↦ none
  | some s ↦ when (nat_eq (utf16_length s) 43) s
]
