-- ===== src/Routes/Applications/Read.antt =====
-- What the application routes read, and the two routes of the contact email. The database's sorting is
-- a parameter.
pub mod Kept
pub mod Stats
use streamgive_backend.Prelude.{
  ℕ, zero, suc, ◌+◌, String, Bool, true, false, not, ◌&&◌, Option, none, some, List, [], ◌∷◌, ◌==◌,
  find_first, select, count_where, length, take, drop, ltb, leb, if◌then◌else◌, ℤ, pos, negsuc,
}
use streamgive_backend.Db.{NgoApplication, ApplicationStatus, pending, approved, rejected}
use streamgive_backend.Db.Exec.{Result, ok, err, Env, Exec, pure, ◌>>=◌, ◌>>◌, query, given}
use streamgive_backend.Notifications.ContactVerification.{
  send_contact_verification, verify_contact_token,
}
use streamgive_backend.Routes.Reply.{Reply, refused, replied}
use streamgive_backend.Routes.Applications.Schema.{
  Field, absent, other, text, parse_address, parse_uuid, parse_token,
}
use streamgive_backend.Routes.Applications.Services.{Services, is_pending}
use streamgive_backend.Routes.Applications.Submit.{has_id}

abbrev pub max_application_list_offset : ℕ
max_application_list_offset = 10000

-- `reviewNote` is absent, or its column.
pub record StatusBody : Type 0 where
  pub status : ApplicationStatus
  pub created_at : ℕ
  pub updated_at : ℕ
  pub review_note : Option (Option String)

abbrev pub has_owner_address : String → NgoApplication → Bool
has_owner_address owner_address row = row.owner_address == owner_address

abbrev pub status_body : NgoApplication → StatusBody
status_body row = record {
  status = row.status;
  created_at = row.created_at;
  updated_at = row.updated_at;
  review_note = if is_pending row then none else some row.review_note;
}

abbrev pub status_eq : ApplicationStatus → ApplicationStatus → Bool
status_eq pending pending = true
status_eq approved approved = true
status_eq rejected rejected = true
status_eq _ _ = false

abbrev pub has_status : ApplicationStatus → NgoApplication → Bool
has_status status row = status_eq row.status status

-- `groupBy`: each status that occurs, with its count.
pub count_status : ApplicationStatus → List (ApplicationStatus × ℕ) → List (ApplicationStatus × ℕ)
count_status status [] = (status, 1) ∷ []
count_status status ((seen, n) ∷ groups) =
    let rest = count_status status groups in
    if status_eq seen status then (seen, n + 1) ∷ groups else (seen, n) ∷ rest

pub group_by_status : List NgoApplication → List (ApplicationStatus × ℕ)
unfolding count_status
group_by_status [] = []
group_by_status (row ∷ rows) = count_status row.status (group_by_status rows)

pub record Counts : Type 0 where
  pub pending : ℕ
  pub approved : ℕ
  pub rejected : ℕ

-- `counts[row.status] = row._count._all`
abbrev pub set_count : ApplicationStatus → ℕ → Counts → Counts
set_count pending n counts = record counts { pending = n }
set_count approved n counts = record counts { approved = n }
set_count rejected n counts = record counts { rejected = n }

pub set_counts : List (ApplicationStatus × ℕ) → Counts → Counts
set_counts [] counts = counts
set_counts ((status, n) ∷ groups) counts = set_counts groups (set_count status n counts)

pub record StatsBody : Type 0 where
  pub counts : Counts
  pub total : ℕ

pub stats_body : List (ApplicationStatus × ℕ) → StatsBody
unfolding set_counts
stats_body groups =
    let counts = set_counts groups (record { pending = 0; approved = 0; rejected = 0 }) in
    record { counts = counts; total = counts.pending + counts.approved + counts.rejected }

-- `z.coerce.number().int().min(lo).max(hi).default(d)`, where `number` is `Number`.
abbrev in_range : ℕ → ℕ → Option ℤ → Option ℕ
in_range lo hi none = none
in_range lo hi (some (negsuc n)) = none
in_range lo hi (some (pos n)) = if leb lo n && leb n hi then some n else none

pub parse_number : (String → Option ℤ) → ℕ → ℕ → ℕ → Field → Option ℕ
parse_number number lo hi default absent = some default
parse_number number lo hi default other = none
parse_number number lo hi default (text s) = in_range lo hi (number s)

-- `z.enum(['PENDING', 'APPROVED', 'REJECTED']).optional()`
pub parse_status : Field → Option (Option ApplicationStatus)
parse_status absent = some none
parse_status other = none
parse_status (text s) =
    if s == "PENDING"
    then some (some pending)
    else if s == "APPROVED"
    then some (some approved)
    else if s == "REJECTED"
    then some (some rejected)
    else none

abbrev pub is_listed : Option ApplicationStatus → NgoApplication → Bool
is_listed none row = true
is_listed (some status) row = has_status status row

pub record ListBody : Type 0 where
  pub applications : List NgoApplication
  pub total : ℕ
  pub limit : ℕ
  pub offset : ℕ

module _ (env : Env) {Key : Type 0} (services : Services Key)
    (newest_first : List NgoApplication → List NgoApplication) where
  pub answer_status : List NgoApplication → Exec (Reply StatusBody)
  answer_status [] = pure (refused 404 "not_found")
  answer_status (row ∷ rows) = pure (replied 200 (status_body row))

  -- GET /ngo-applications/status
  pub status : Field → Exec (Reply StatusBody)
  unfolding answer_status
  status field =
      given (parse_address field) (pure (refused 400 "invalid_request")) (λ owner_address. do
        rows ←
            query env
              (λ db. newest_first (select (has_owner_address owner_address) db.applications))
        answer_status rows)

  -- GET /ngo-applications/stats
  pub stats : Exec (Reply StatsBody)
  unfolding stats_body group_by_status
  stats = do
    groups ← query env (λ db. group_by_status db.applications)
    pure (replied 200 (stats_body groups))

  pub list_page : Option ApplicationStatus → ℕ → ℕ → Exec (Reply ListBody)
  list_page status limit offset = do
    applications ←
        query env (λ db.
          take limit (drop offset (newest_first (select (is_listed status) db.applications))))
    total ← query env (λ db. count_where (is_listed status) db.applications)
    pure (
        replied 200
          (record { applications = applications; total = total; limit = limit; offset = offset }))

  -- GET /ngo-applications
  pub list : Field → Field → Field → Exec (Reply ListBody)
  unfolding list_page
  list status limit offset =
      let number = services.crypto.number in
      let invalid : Exec (Reply ListBody) = pure (refused 400 "invalid_request") in
      given (parse_status status) invalid (λ status.
        given (parse_number number 1 100 100 limit) invalid (λ limit.
          given (parse_number number 0 max_application_list_offset 0 offset) invalid
            (λ offset. list_page status limit offset)))

  abbrev or_not_found : Option NgoApplication → Reply NgoApplication
  or_not_found none = refused 404 "not_found"
  or_not_found (some row) = replied 200 row

  -- GET /ngo-applications/:id
  pub detail : Field → Exec (Reply NgoApplication)
  detail id = given (parse_uuid services.zod id) (pure (refused 400 "invalid_request")) (λ id. do
    found ← query env (λ db. find_first (has_id id) db.applications)
    pure (or_not_found found))

  pub verified : Bool → Reply Bool
  verified true = replied 200 true
  verified false = refused 400 "invalid_or_expired_token"

  -- GET /ngo-applications/verify-contact-email
  pub verify_contact_email : Field → Exec (Reply Bool)
  unfolding verified
  verify_contact_email field =
      given (parse_token field) (pure (refused 400 "invalid_or_expired_token"))
        (λ token. do done ← verify_contact_token env services.crypto token; pure (verified done))

  abbrev unverified : Option NgoApplication → Option NgoApplication
  unverified none = none
  unverified (some row) = elim row.email_verified_at [ none ↦ some row | some at ↦ none ]

  pub resend_to : NgoApplication → Exec Unit
  resend_to row = do send_contact_verification env services.crypto services.mail row; pure tt

  pub resend_by_id : String → Exec Unit
  unfolding resend_to
  resend_by_id id = do
    found ← query env (λ db. find_first (has_id id) db.applications)
    given (unverified found) (pure tt) resend_to

  -- POST /ngo-applications/:id/contact-email-verification
  pub resend_contact_email : Field → Exec (Reply String)
  unfolding resend_by_id
  resend_contact_email id = do
    given (parse_uuid services.zod id) (pure tt) resend_by_id
    pure (replied 202 "If eligible, a verification email has been sent.")
