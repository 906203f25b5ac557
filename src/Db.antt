-- ===== src/Db.antt =====
-- prisma/schema.prisma and src/db.ts: the rows of the tables that the indexer, the scripts and the
-- routes use, the database as a record of tables, and the world that an asynchronous call changes.
-- Amounts (`String` columns that hold the decimal digits of a `bigint`) are the integers that they
-- denote; a `DateTime` is its milliseconds since the Unix epoch.
pub mod Exec
pub mod Keeps
pub mod Split
pub mod Calm
pub mod Total
use streamgive_backend.Prelude.{ℕ, String, Bool, Option, none, List, [], ℤ}

pub record Donor : Type 0 where
  pub id : String
  pub address : String

pub record Ngo : Type 0 where
  pub id : String
  pub owner_address : String
  pub name : String
  pub verified : Bool

pub data StreamStatus : Type 0 where
  active cancelled : StreamStatus

pub record Stream : Type 0 where
  pub id : String
  pub on_chain_id : ℤ
  pub donor_id : String
  pub ngo_id : String
  pub token_address : String
  pub rate : ℤ
  pub last_rate : Option ℤ
  pub balance : ℤ
  pub withdrawn : ℤ
  pub status : StreamStatus
  pub created_tx_hash : Option String
  pub created_at : ℕ
  pub updated_at : ℕ

-- The JSON payload of a persisted event, by the event's type.
pub data Payload : Type 0 where
  created : (donor ngo token : String) (deposit rate : ℤ) → Payload
  withdraw : (accrued : ℤ) → Payload
  cancel : (accrued refund : ℤ) → Payload
  register : (owner_address name : String) → Payload
  approved revoked : (owner_address : String) → Payload

-- The row's `type` is the constructor of its payload.
pub record StreamEvent : Type 0 where
  pub stream_id : Option ℤ
  pub ledger : ℕ
  pub tx_hash : Option String
  pub payload : Payload

pub record DeadLetter : Type 0 where
  pub id : String
  pub event_id : String
  pub ledger : ℕ
  pub contract_id : Option String
  pub error : String
  pub topic : List String
  pub value : Option String
  pub tx_hash : Option String
  pub attempts : ℕ
  pub resolved_at : Option ℕ

-- The one row, `id = 'main'`, of `indexer_checkpoints`.
pub record Checkpoint : Type 0 where
  pub last_ledger : ℕ
  pub last_event_id : Option String

pub data ApplicationStatus : Type 0 where
  pending approved rejected : ApplicationStatus

pub record NgoApplication : Type 0 where
  pub id : String
  pub owner_address : String
  pub name : String
  pub description : String
  pub website : Option String
  pub contact_email : String
  pub country : Option String
  pub status : ApplicationStatus
  pub review_note : Option String
  pub reviewed_by : Option String
  pub reviewed_at : Option ℕ
  pub email_verified_at : Option ℕ
  pub created_at : ℕ
  pub updated_at : ℕ

pub record ContactChallenge : Type 0 where
  pub token_hash : String
  pub application_id : String
  pub expires_at : ℕ

pub record ApplicationChallenge : Type 0 where
  pub challenge : String
  pub owner_address : String
  pub expires_at : ℕ

pub record NotificationLog : Type 0 where
  pub id : String
  pub event_id : Option String
  pub event_type : String
  pub channel : String
  pub success : Bool
  pub error : Option String
  pub created_at : ℕ

pub record NotificationEndpoint : Type 0 where
  pub id : String
  pub url : String
  pub secret : String
  pub event_types : List String
  pub enabled : Bool

pub record Database : Type 0 where
  pub donors : List Donor
  pub ngos : List Ngo
  pub streams : List Stream
  pub stream_events : List StreamEvent
  pub dead_letters : List DeadLetter
  pub checkpoint : Option Checkpoint
  pub applications : List NgoApplication
  pub contact_challenges : List ContactChallenge
  pub application_challenges : List ApplicationChallenge
  pub notification_logs : List NotificationLog
  pub notification_endpoints : List NotificationEndpoint

abbrev pub empty_database : Database
empty_database = record {
  donors = [];
  ngos = [];
  streams = [];
  stream_events = [];
  dead_letters = [];
  checkpoint = none;
  applications = [];
  contact_challenges = [];
  application_challenges = [];
  notification_logs = [];
  notification_endpoints = [];
}
