-- ===== src/Db/Exec.antt =====
-- Asynchronous code against the database: a state and exception monad. Each Prisma call asks the
-- environment whether it fails, so that every theorem covers every pattern of database faults.
use streamgive_backend.Prelude.{
  ℕ, suc, String, ◌≡◌, refl, ◌⊎◌, inl, inr, Option, none, some, List, [], ◌∷◌, ◌++◌, ℤ,
}
use streamgive_backend.Db.{Database}

-- `err instanceof …`; the standard error classes that the worker tells apart.
pub data ErrorClass : Type 0 where
  type_error range_error syntax_error plain_error : ErrorClass

-- What a `throw` throws: an `Error`, with the `code` that Prisma gives some of its errors; another
-- object with a `message`, as a JSON-RPC error is; or a value, of which only its text is read.
pub data Thrown : Type 0 where
  error : (class : ErrorClass) (name message : String) (code : Option String) → Thrown
  object : (message : String) → Thrown
  thrown_value : (text : String) → Thrown

pub data Result (A : Type 0) : Type 0 where
  ok : A → Result A
  err : Thrown → Result A

pub Result-cases :
    {A : Type 0} (r : Result A) → ((a : A) × (r ≡ ok a)) ⊎ ((e : Thrown) × (r ≡ err e))
Result-cases (ok a) = inl (a, refl)
Result-cases (err e) = inr (e, refl)

abbrev pub type_error_thrown : String → Thrown
type_error_thrown message = error type_error "TypeError" message none

-- src/notifications/types.ts
pub data ReviewStatus : Type 0 where
  approved rejected : ReviewStatus

pub data NotificationEvent : Type 0 where
  stream_created :
      (event_id : String) (stream_id : ℤ) (donor_address ngo_id : String) → NotificationEvent
  stream_withdrawn : (event_id : String) (stream_id amount : ℤ) → NotificationEvent
  stream_cancelled :
      (event_id : String) (stream_id settled_to_ngo refund_to_donor : ℤ) → NotificationEvent
  ngo_registered ngo_approved ngo_revoked :
      (event_id owner_address ngo_id : String) → NotificationEvent
  application_submitted :
      (event_id : Option String) (application_id owner_address name : String) → NotificationEvent
  application_reviewed :
      (event_id : Option String) (application_id owner_address : String) (status : ReviewStatus)
      (review_note : Option String)
      → NotificationEvent

-- The counters of src/metrics.ts that the indexer and the notifications write.
pub record Metrics : Type 0 where
  pub checkpoint_ledger : ℕ
  pub latest_ledger : ℕ
  pub events_processed : ℕ
  pub events_dead_lettered : ℕ
  pub events_skipped : ℕ
  pub deliveries_succeeded : ℕ
  pub deliveries_failed : ℕ

-- A request that `fetch` sends.
pub record Post : Type 0 where
  pub url : String
  pub headers : List (String × String)
  pub body : String

-- What the process can change: the database, the indexer's module variables, the metrics, the
-- notifications handed to `dispatchNotification`, the event ids remembered as delivered, the requests
-- sent, and the number of calls of the environment made so far.
pub record World : Type 0 where
  pub database : Database
  pub last_processed_ledger : Option ℕ
  pub last_processed_event_id : Option String
  pub metrics : Metrics
  pub dispatched : List NotificationEvent
  pub delivered_event_ids : List String
  pub posts : List Post
  pub calls : ℕ

-- What the process is given: whether the n-th Prisma call (or commit) throws, the clock at that
-- call, the n-th UUID that is drawn, the error of Prisma's client for an argument that
-- it refuses (an invalid `Date`, a missing text), and the
-- status that the n-th `fetch` is answered with, if it does not throw.
pub record Env : Type 0 where
  pub fault : ℕ → Option Thrown
  pub now : ℕ → ℕ
  pub uuid : ℕ → String
  pub invalid_date : Thrown
  pub fetch : ℕ → Result ℕ

abbrev pub Exec : Type 0 → Type 0
Exec A = World → Result A × World

module _ {A : Type 0} where
  abbrev pub pure : A → Exec A
  pure a w = (ok a, w)

  abbrev pub throw : Thrown → Exec A
  throw e w = (err e, w)

  abbrev pub lift : Result A → Exec A
  lift r w = (r, w)

infixl 5 ◌>>=◌ ◌>>◌
abbrev pub ◌>>=◌ : {A B : Type 0} → Exec A → (A → Exec B) → Exec B
◌>>=◌ m f w = let (r, w') = m w in elim r [ ok a ↦ f a w' | err e ↦ (err e, w') ]

abbrev pub ◌>>◌ : {A B : Type 0} → Exec A → Exec B → Exec B
m >> k = m >>= λ _. k

abbrev pub modify : (World → World) → Exec (Unit {0})
modify f w = (ok tt, f w)

abbrev pub gets : {A : Type 0} → (World → A) → Exec A
gets f w = (ok (f w), w)

-- `try { m } catch (e) { h(e) }`
abbrev pub catch : {A : Type 0} → Exec A → (Thrown → Exec A) → Exec A
catch m h w = let (r, w') = m w in elim r [ ok a ↦ (ok a, w') | err e ↦ h e w' ]

-- What is done without a value, and with one.
abbrev pub given : {A B : Type 0} → Option A → Exec B → (A → Exec B) → Exec B
given none m f = m
given (some a) m f = f a

abbrev pub tick : World → World
tick w = record w { calls = suc w.calls }

-- Reading the clock, and drawing a UUID.
module _ (env : Env) where
  abbrev pub clock : Exec ℕ
  clock w = (ok (env.now w.calls), tick w)

  abbrev pub random_uuid : Exec String
  random_uuid w = (ok (env.uuid w.calls), tick w)

  -- `fetch(url, …)`: the request is sent, and answered or not.
  abbrev pub send_request : Post → Exec ℕ
  send_request post w = (env.fetch w.calls, record (tick w) { posts = w.posts ++ post ∷ [] })

-- Prisma's `RecordNotFound`, thrown by `update` where no row matches.
abbrev pub record_not_found : Thrown
record_not_found =
    error plain_error "PrismaClientKnownRequestError" "No record was found" (some "P2025")

-- Prisma's error for a row whose unique column is taken.
abbrev pub unique_violation : Thrown
unique_violation =
    error plain_error "PrismaClientKnownRequestError" "Unique constraint failed" (some "P2002")

-- A rollback undoes what the transaction wrote; dead letters go through another connection.
abbrev pub rollback : World → World → World
rollback before after = record after {
  database = record before.database { dead_letters = after.database.dead_letters };
}

module _ (env : Env) where
  -- One Prisma call: it fails as the environment says, or runs its query.
  unfoldable pub prisma : {A : Type 0} → (Database → Result A × Database) → Exec A
  prisma f w = elim (env.fault w.calls) [
    | some e ↦ (err e, tick w)
    | none ↦ let (r, db) = f w.database in (r, record (tick w) { database = db })
  ]

  abbrev pub query : {A : Type 0} → (Database → A) → Exec A
  query f = prisma (λ db. (ok (f db), db))

  abbrev pub execute : (Database → Database) → Exec (Unit {0})
  execute f = prisma (λ db. (ok tt, f db))

  -- `prisma.$transaction(body)`: a body or a commit that throws leaves nothing written.
  unfoldable pub transaction : {A : Type 0} → Exec A → Exec A
  transaction body w =
      let (r, w') = body w in
      elim r [
        | err e ↦ (err e, rollback w w')
        | ok a ↦ elim (env.fault w'.calls) [
          | some e ↦ (err e, rollback w (tick w'))
          | none ↦ (ok a, tick w')
        ]
      ]
