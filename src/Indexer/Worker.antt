-- ===== src/Indexer/Worker.antt =====
-- `pollOnce` and `backoffDelayMs` of src/indexer/worker.ts, and src/indexer/checkpoint.ts. What the
-- RPC answers during a poll is a parameter, and so is the handler.
pub mod Progress
pub mod Poll
pub mod Backoff
use streamgive_backend.Prelude.{
  ℕ, zero, suc, ◌+◌, ◌*◌, ◌^◌, min, String, Bool, true, false, ◌&&◌, Option, none, some, List, [],
  ◌∷◌, ◌==◌, leb, nat_eq, if◌then◌else◌,
}
use streamgive_backend.Db.{Checkpoint}
use streamgive_backend.Db.Exec.{
  Result, ok, err, Thrown, Env, Exec, World, pure, throw, lift, ◌>>=◌, ◌>>◌, gets, modify, catch,
  query, execute,
}
use streamgive_backend.Indexer.Event.{Sdk, ContractEvent}
use streamgive_backend.Indexer.Errors.{is_decode_or_validation_error, is_ledger_out_of_range}
use streamgive_backend.Indexer.DeadLetters.{record_dead_letter}

abbrev pub backoff_max_ms : ℕ
backoff_max_ms = 5 * 60000

-- The interval is a whole number. `2 ** n` is exact below 2 ** 1024 and Infinity from there on, where the
-- cap is the lesser one, unless the interval is 0: `none` is NaN.
unfoldable pub backoff_delay_ms : ℕ → ℕ → Option ℕ
backoff_delay_ms poll_interval_ms zero = some poll_interval_ms
backoff_delay_ms poll_interval_ms (suc n) =
    if nat_eq poll_interval_ms 0 && leb 1024 n
    then none
    else some (min (poll_interval_ms * 2 ^ n) backoff_max_ms)

-- `setTimeout` reads NaN as one millisecond.
abbrev pub timer_delay : Option ℕ → ℕ
timer_delay none = 1
timer_delay (some delay) = delay

pub data Pagination : Type 0 where
  cursor : String → Pagination
  start_ledger : ℕ → Pagination

pub record Request : Type 0 where
  pub pagination : Pagination
  pub contract_ids : List String
  pub limit : Option ℕ

-- The RPC's answers during one poll.
pub record Rpc (ScVal : Type 0) : Type 0 where
  pub latest_ledger : Result ℕ
  pub get_events : Request → Result (List (ContractEvent ScVal))

pub record Config : Type 0 where
  pub watched : List String
  pub start_ledger : Option ℕ
  pub max_events_per_poll : Option ℕ

-- `lastProcessedEventId ? { cursor } : { startLedger: lastProcessedLedger + 1 }`
pub pagination_from : ℕ → Option String → Pagination
pagination_from last none = start_ledger (last + 1)
pagination_from last (some id) = if id == "" then start_ledger (last + 1) else cursor id

abbrev pub is_none : {A : Type 0} → Option A → Bool
is_none none = true
is_none (some a) = false

abbrev pub set_position : ℕ → Option String → World → World
set_position ledger id w = record w {
  last_processed_ledger = some ledger;
  last_processed_event_id = id;
}

-- The metrics of src/metrics.ts.
abbrev pub record_indexer_position : ℕ → ℕ → World → World
record_indexer_position checkpoint_ledger latest_ledger w = record w {
  metrics = record w.metrics {
    checkpoint_ledger = checkpoint_ledger;
    latest_ledger = latest_ledger;
  };
}

abbrev pub record_event_processed : World → World
record_event_processed w = record w {
  metrics = record w.metrics { events_processed = suc w.metrics.events_processed };
}

abbrev pub record_event_dead_lettered : World → World
record_event_dead_lettered w = record w {
  metrics = record w.metrics { events_dead_lettered = suc w.metrics.events_dead_lettered };
}

abbrev pub record_events_skipped : World → World
record_events_skipped w = record w {
  metrics = record w.metrics { events_skipped = suc w.metrics.events_skipped };
}

module _ (env : Env) where
  unfoldable pub save_checkpoint : ℕ → Option String → Exec Unit
  save_checkpoint ledger event_id = execute env λ db. record db {
    checkpoint = some (record { last_ledger = ledger; last_event_id = event_id });
  }

  unfoldable pub get_checkpoint_state : Exec (Option Checkpoint)
  get_checkpoint_state = query env (λ db. db.checkpoint)

  -- Both in memory and in the database.
  pub checkpoint_at : ℕ → Option String → Exec Unit
  unfolding save_checkpoint
  checkpoint_at ledger event_id = do
    modify (set_position ledger event_id)
    save_checkpoint ledger event_id

  module _ {ScVal : Type 0} (sdk : Sdk ScVal) where
    -- The `catch` block of the loop.
    pub dead_letter_or_throw : ContractEvent ScVal → Thrown → Exec Unit
    dead_letter_or_throw event e =
        if is_decode_or_validation_error e
        then (do record_dead_letter sdk env event e; modify record_event_dead_lettered)
        else throw e

  module _ {ScVal : Type 0} (sdk : Sdk ScVal) (handle : ContractEvent ScVal → Exec Unit) where
    pub attempt : ContractEvent ScVal → Exec Unit
    unfolding dead_letter_or_throw
    attempt event =
        catch (do handle event; modify record_event_processed) (dead_letter_or_throw sdk event)

    pub process_events : List (ContractEvent ScVal) → Exec Unit
    process_events [] = pure tt
    process_events (event ∷ events) = do
      attempt event
      checkpoint_at event.ledger (some event.id)
      process_events events

    pub process_batch : ℕ → List (ContractEvent ScVal) → Exec Unit
    process_batch latest [] = checkpoint_at latest none
    process_batch latest (event ∷ events) = process_events (event ∷ events)

    pub after_fetch : ℕ → Result (List (ContractEvent ScVal)) → Exec Unit
    unfolding process_batch
    after_fetch latest (ok events) = process_batch latest events
    after_fetch latest (err e) =
        if is_ledger_out_of_range e
        then (do checkpoint_at latest none; modify record_events_skipped)
        else throw e

    module _ (config : Config) (rpc : Rpc ScVal) where
      pub request_from : ℕ → Option String → Request
      unfolding pagination_from
      request_from last id = record {
        pagination = pagination_from last id;
        contract_ids = config.watched;
        limit = config.max_events_per_poll;
      }

      pub fetch : ℕ → ℕ → Option String → Exec Unit
      unfolding after_fetch
      fetch last latest id =
          if leb latest last && is_none id
          then pure tt
          else after_fetch latest (rpc.get_events (request_from last id))

      pub poll_from : ℕ → Exec Unit
      unfolding fetch
      poll_from last = do
        latest ← lift rpc.latest_ledger
        modify (record_indexer_position last latest)
        id ← gets (λ w. w.last_processed_event_id)
        fetch last latest id

      -- `START_LEDGER ?? (await getLatestLedgerSequence())`
      pub first_ledger : Option ℕ → Exec ℕ
      first_ledger none = lift rpc.latest_ledger
      first_ledger (some ledger) = pure ledger

      pub resume : Option Checkpoint → Exec Unit
      unfolding poll_from first_ledger
      resume (some saved) = do
        modify (set_position saved.last_ledger saved.last_event_id)
        poll_from saved.last_ledger
      resume none = do
        ledger ← first_ledger config.start_ledger
        modify (λ w. record w { last_processed_ledger = some ledger })
        save_checkpoint ledger none
        modify (record_indexer_position ledger ledger)

      pub poll_watched : Option ℕ → Exec Unit
      unfolding resume
      poll_watched (some last) = poll_from last
      poll_watched none = do saved ← get_checkpoint_state; resume saved

      pub poll_once : Exec Unit
      unfolding poll_watched
      poll_once w = elim config.watched [
        | [] ↦ (ok tt, w)
        | id ∷ ids ↦ poll_watched w.last_processed_ledger w
      ]
