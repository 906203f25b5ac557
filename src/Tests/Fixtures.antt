-- ===== src/Tests/Fixtures.antt =====
-- An SDK whose `ScVal` is the decoded value, a database that never fails, and a few rows and events.
use streamgive_backend.Prelude.{String, Option, none, some, [], ◌∷◌, pos}
use streamgive_backend.Db.{Database, empty_database, Stream, active, DeadLetter}
use streamgive_backend.Db.Exec.{Result, ok, type_error_thrown, Env, World}
use streamgive_backend.Indexer.Event.{
  Native, text, bigint, vec, item, end, other, Sdk, ContractEvent,
}
use streamgive_backend.Indexer.Dispatch.{Contracts}

abbrev decode : Option Native → Result Native
decode none = ok other
decode (some n) = ok n

abbrev show_native : Native → Result String
show_native (text s) = ok s
show_native n = ok ""

abbrev to_xdr : Native → String
to_xdr (text s) = s
to_xdr n = "AAAA"

abbrev from_xdr : String → Result Native
from_xdr s = ok (text s)

abbrev pub sdk : Sdk Native
sdk = record {
  sc_val_to_native = decode;
  to_string = show_native;
  to_xdr = to_xdr;
  from_xdr = from_xdr;
}

abbrev pub quiet_env : Env
quiet_env = record {
  fault = λ n. none;
  now = λ n. 5000;
  uuid = λ n. "uuid";
  invalid_date = type_error_thrown "Invalid Date";
  fetch = λ n. ok 200;
}

abbrev pub stream : Stream
stream = record {
  id = "s1";
  on_chain_id = pos 7;
  donor_id = "d1";
  ngo_id = "n1";
  token_address = "CTOKEN";
  rate = pos 2;
  last_rate = none;
  balance = pos 100;
  withdrawn = pos 5;
  status = active;
  created_tx_hash = none;
  created_at = 10;
  updated_at = 10;
}

abbrev pub dead_letter : DeadLetter
dead_letter = record {
  id = "x1";
  event_id = "e9";
  ledger = 9;
  contract_id = some "VAULT";
  error = "Error: unknown stream: 7";
  topic = "created" ∷ [];
  value = none;
  tx_hash = none;
  attempts = 1;
  resolved_at = none;
}

abbrev pub contracts : Contracts
contracts = record { ngo_registry = "REGISTRY"; donation_vault = "VAULT" }

abbrev pub database : Database
database = record empty_database {
  streams = stream ∷ [];
  dead_letters = dead_letter ∷ [];
  checkpoint = some (record { last_ledger = 20; last_event_id = some "e20" });
}

abbrev pub world : World
world = record {
  database = database;
  last_processed_ledger = some 20;
  last_processed_event_id = some "e20";
  metrics = record {
    checkpoint_ledger = 20;
    latest_ledger = 20;
    events_processed = 0;
    events_dead_lettered = 0;
    events_skipped = 0;
    deliveries_succeeded = 0;
    deliveries_failed = 0;
  };
  dispatched = [];
  delivered_event_ids = [];
  posts = [];
  calls = 0;
}

abbrev vault_event : String → Native → ContractEvent Native
vault_event topic value = record {
  id = "e21";
  ledger = 21;
  contract_id = some "VAULT";
  tx_hash = some "tx";
  ledger_closed_at = some 1000;
  topic = text topic ∷ bigint (pos 7) ∷ [];
  value = some value;
}

abbrev pub withdraw_event : ContractEvent Native
withdraw_event = vault_event "withdraw" (bigint (pos 40))

abbrev pub cancel_event : ContractEvent Native
cancel_event = vault_event "cancel" (vec (item (bigint (pos 30)) (item (bigint (pos 70)) end)))

-- Its value is no integer, so that its handler throws.
abbrev pub broken_event : ContractEvent Native
broken_event = vault_event "withdraw" other
