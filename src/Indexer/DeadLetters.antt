-- ===== src/Indexer/DeadLetters.antt =====
-- src/indexer/deadLetter.ts: recording an event that could not be processed, and rebuilding it.
pub mod Attempts
use streamgive_backend.Prelude.{
  ℕ, suc, String, Bool, Option, none, some, List, [], ◌∷◌, map, ◌==◌, if◌then◌else◌, slice, ◌<>◌,
  upsert,
}
use mathlib.Core.Option
use streamgive_backend.Db.{DeadLetter}
use streamgive_backend.Db.Exec.{
  Result, ok, err, Thrown, error, object, thrown_value, Env, Exec, ◌>>=◌, gets, execute,
}
use streamgive_backend.Indexer.Event.{ContractEvent, Sdk}

abbrev pub max_error_length : ℕ
max_error_length = 2000

pub describe_error : Thrown → String
describe_error (error class name message code) = slice max_error_length (name <> ": " <> message)
describe_error (object message) = slice max_error_length "[object Object]"
describe_error (thrown_value text) = slice max_error_length text

abbrev pub has_event_id : String → DeadLetter → Bool
has_event_id event_id row = row.event_id == event_id

module _ {ScVal : Type 0} (sdk : Sdk ScVal) where
  -- The row that is created, with its first attempt.
  pub new_dead_letter : String → ContractEvent ScVal → Thrown → DeadLetter
  new_dead_letter id event e = record {
    id = id;
    event_id = event.id;
    ledger = event.ledger;
    contract_id = event.contract_id;
    error = describe_error e;
    topic = map sdk.to_xdr event.topic;
    value = Option.map sdk.to_xdr event.value;
    tx_hash = event.tx_hash;
    attempts = 1;
    resolved_at = none;
  }

  -- The update of a row that is there: it leaves the ledger, the contract and `resolvedAt`.
  pub update_dead_letter : ContractEvent ScVal → Thrown → DeadLetter → DeadLetter
  update_dead_letter event e row = record row {
    error = describe_error e;
    topic = map sdk.to_xdr event.topic;
    value = Option.map sdk.to_xdr event.value;
    tx_hash = event.tx_hash;
    attempts = suc row.attempts;
  }

  unfoldable pub upsert_dead_letter :
      String → ContractEvent ScVal → Thrown → List DeadLetter → List DeadLetter
  unfolding new_dead_letter update_dead_letter
  upsert_dead_letter id event e =
      upsert (has_event_id event.id) (new_dead_letter id event e) (update_dead_letter event e)

  unfoldable pub record_dead_letter : Env → ContractEvent ScVal → Thrown → Exec Unit
  unfolding upsert_dead_letter
  record_dead_letter env event e = do
    n ← gets (λ w. w.calls)
    execute env
        (λ db. record db { dead_letters = upsert_dead_letter (env.uuid n) event e db.dead_letters })

  -- `topic.map(fromXDR)`: the first text that does not parse throws.
  pub parse_topic : List String → Result (List ScVal)
  parse_topic [] = ok []
  parse_topic (text ∷ texts) = elim (sdk.from_xdr text) [
    | err e ↦ err e
    | ok v ↦ elim (parse_topic texts) [ err e ↦ err e | ok vs ↦ ok (v ∷ vs) ]
  ]

  -- `value ? fromXDR(value) : null`: an empty text is null too.
  pub parse_value : Option String → Result (Option ScVal)
  parse_value none = ok none
  parse_value (some text) =
      if text == ""
      then ok none
      else elim (sdk.from_xdr text) [ err e ↦ err e | ok v ↦ ok (some v) ]

  -- The rebuilt event has no `ledgerClosedAt`.
  abbrev rebuilt : DeadLetter → List ScVal → Option ScVal → ContractEvent ScVal
  rebuilt row topic value = record {
    id = row.event_id;
    ledger = row.ledger;
    contract_id = row.contract_id;
    tx_hash = row.tx_hash;
    ledger_closed_at = none;
    topic = topic;
    value = value;
  }

  unfoldable pub rebuild_event_from_dead_letter : DeadLetter → Result (ContractEvent ScVal)
  unfolding parse_topic parse_value
  rebuild_event_from_dead_letter row = elim (parse_topic row.topic) [
    | err e ↦ err e
    | ok topic ↦ elim (parse_value row.value) [
      | err e ↦ err e
      | ok value ↦ ok (rebuilt row topic value)
    ]
  ]
