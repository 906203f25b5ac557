-- ===== src/Indexer/Lifecycle.antt =====
-- `startIndexer` of src/indexer/worker.ts and src/indexer/lock.ts: one worker as a state machine, whose
-- steps are what happens between two awaits. The log lines are left out.
pub mod System
mod Claims
pub mod Exclusion
pub mod Refinement
use streamgive_backend.Prelude.{
  ℕ, suc, Bool, true, false, not, ◌&&◌, Option, none, some, if◌then◌else◌,
}
use streamgive_backend.Indexer.Worker.{backoff_delay_ms, timer_delay}

-- The object that `tryAcquireIndexerLock` returns, on the n-th client of the worker.
pub record Lock : Type 0 where
  pub client : ℕ
  pub held : Bool
  pub released : Bool

-- What the run in flight awaits: the connection, the lock's query (sent, or executed with its answer),
-- `client.end()` after a refusal, after an error, or of a lock that is no longer held, or `pollOnce`.
pub data Awaits : Type 0 where
  idle connecting querying rejecting failing dropping polling : Awaits
  answered : (locked : Bool) → Awaits

-- What the stop function awaits.
pub data Stop : Type 0 where
  not_called awaiting_run unlocking closing done : Stop

pub record Worker : Type 0 where
  pub awaits : Awaits
  pub stop : Stop
  pub timer : Option ℕ
  pub indexer_lock : Option Lock
  pub clients : ℕ
  pub lock_wait_logged : Bool
  pub consecutive_failures : ℕ
  pub consecutive_poll_failures : ℕ

-- What settles next, or happens to the worker.
pub data Event : Type 0 where
  timer_fires query_executes query_returns query_fails socket_fails stop_called run_settles : Event
  connected ended polled unlocked closed : (resolved : Bool) → Event

abbrev pub is_stopped : Worker → Bool
is_stopped w = elim w.stop [
  | not_called ↦ false
  | awaiting_run ↦ true
  | unlocking ↦ true
  | closing ↦ true
  | done ↦ true
]

-- `client.on('error', …)`
abbrev pub fail_socket : Option Lock → Option Lock
fail_socket none = none
fail_socket (some lock) = some (record lock { held = false })

abbrev pub released_lock : Lock → Option Lock
released_lock lock = some (record lock { released = true })

abbrev pub acquire : Worker → Worker
acquire w = record w { awaits = connecting; indexer_lock = none; clients = suc w.clients }

-- `runPoll`, up to its first await.
abbrev pub run_poll : Worker → Worker
run_poll w = elim w.indexer_lock [
  | none ↦ acquire (record w { timer = none })
  | some lock ↦
      if lock.held
      then record w { awaits = polling; timer = none }
      else if lock.released
      then acquire (record w { timer = none })
      else record w { awaits = dropping; timer = none; indexer_lock = released_lock lock }
]

-- The stop function behind `await inFlight`, up to its next await. What `indexer_lock` is after its
-- last await is left open, as nothing reads it then; a second call of the function is left out.
abbrev pub release_at_stop : Worker → Worker
release_at_stop w = elim w.indexer_lock [
  | none ↦ record w { stop = done }
  | some lock ↦ if lock.released then record w { stop = done } else record w {
    stop = (if lock.held then unlocking else closing);
    indexer_lock = released_lock lock;
  }
]

-- The worker that `startIndexer` starts: its first run is in flight.
abbrev pub start : Worker
start = acquire (record {
  awaits = idle;
  stop = not_called;
  timer = none;
  indexer_lock = none;
  clients = 0;
  lock_wait_logged = false;
  consecutive_failures = 0;
  consecutive_poll_failures = 0;
})

module _ (poll_interval_ms : ℕ) where
  -- `finally`: the next poll is scheduled, unless the worker is stopped.
  abbrev pub finish_run : Worker → Worker
  finish_run w = record w {
    awaits = idle;
    timer =
        if is_stopped w
        then none
        else some (timer_delay (backoff_delay_ms poll_interval_ms w.consecutive_failures));
  }

  -- `catch`
  abbrev pub fail_run : Worker → Worker
  fail_run w = finish_run (record w {
    consecutive_failures = suc w.consecutive_failures;
    consecutive_poll_failures = suc w.consecutive_poll_failures;
  })

  -- `if (stopped || !indexerLock.isHeld()) return; await pollOnce(…)`
  abbrev pub poll_if_running : Worker → Worker
  poll_if_running w = if is_stopped w then finish_run w else record w { awaits = polling }

  abbrev pub got_lock : Worker → Worker
  got_lock w = poll_if_running (record w {
    indexer_lock = some (record { client = w.clients; held = true; released = false });
    lock_wait_logged = false;
  })

  -- The step of a worker; `locked` is what the server answers to `pg_try_advisory_lock`. An event that
  -- cannot happen in a state has no step.
  unfoldable pub step : Bool → Event → Worker → Option Worker
  step locked timer_fires w = elim w.timer [
    | none ↦ none
    | some delay ↦ elim w.awaits [
      | idle ↦ if is_stopped w then none else some (run_poll w)
      | connecting ↦ none
      | querying ↦ none
      | rejecting ↦ none
      | failing ↦ none
      | dropping ↦ none
      | polling ↦ none
      | answered b ↦ none
    ]
  ]
  step locked (connected resolved) w = elim w.awaits [
    | connecting ↦ some (if resolved then record w { awaits = querying } else fail_run w)
    | idle ↦ none
    | querying ↦ none
    | rejecting ↦ none
    | failing ↦ none
    | dropping ↦ none
    | polling ↦ none
    | answered b ↦ none
  ]
  step locked query_executes w = elim w.awaits [
    | querying ↦ some (record w { awaits = answered locked })
    | idle ↦ none
    | connecting ↦ none
    | rejecting ↦ none
    | failing ↦ none
    | dropping ↦ none
    | polling ↦ none
    | answered b ↦ none
  ]
  step locked query_returns w = elim w.awaits [
    | answered b ↦ some (if b then got_lock w else record w { awaits = rejecting })
    | idle ↦ none
    | connecting ↦ none
    | querying ↦ none
    | rejecting ↦ none
    | failing ↦ none
    | dropping ↦ none
    | polling ↦ none
  ]
  step locked query_fails w = elim w.awaits [
    | querying ↦ some (record w { awaits = failing })
    | answered b ↦ some (record w { awaits = failing })
    | idle ↦ none
    | connecting ↦ none
    | rejecting ↦ none
    | failing ↦ none
    | dropping ↦ none
    | polling ↦ none
  ]
  step locked (ended resolved) w = elim w.awaits [
    | rejecting ↦ some (
        if resolved
        then finish_run (record w { lock_wait_logged = true })
        else record w { awaits = failing })
    | failing ↦ some (fail_run w)
    | dropping ↦ some (if resolved then acquire w else fail_run w)
    | idle ↦ none
    | connecting ↦ none
    | querying ↦ none
    | polling ↦ none
    | answered b ↦ none
  ]
  step locked (polled resolved) w = elim w.awaits [
    | polling ↦ some (
        if resolved
        then finish_run (record w { consecutive_failures = 0; consecutive_poll_failures = 0 })
        else fail_run w)
    | idle ↦ none
    | connecting ↦ none
    | querying ↦ none
    | rejecting ↦ none
    | failing ↦ none
    | dropping ↦ none
    | answered b ↦ none
  ]
  step locked socket_fails w = some (record w { indexer_lock = fail_socket w.indexer_lock })
  step locked stop_called w =
      if is_stopped w then none else some (record w { stop = awaiting_run; timer = none })
  step locked run_settles w = elim w.stop [
    | awaiting_run ↦ elim w.awaits [
      | idle ↦ some (release_at_stop w)
      | connecting ↦ none
      | querying ↦ none
      | rejecting ↦ none
      | failing ↦ none
      | dropping ↦ none
      | polling ↦ none
      | answered b ↦ none
    ]
    | not_called ↦ none
    | unlocking ↦ none
    | closing ↦ none
    | done ↦ none
  ]
  step locked (unlocked resolved) w = elim w.stop [
    | unlocking ↦ some (record w { stop = closing; indexer_lock = fail_socket w.indexer_lock })
    | not_called ↦ none
    | awaiting_run ↦ none
    | closing ↦ none
    | done ↦ none
  ]
  step locked (closed resolved) w = elim w.stop [
    | closing ↦ some (record w { stop = done })
    | not_called ↦ none
    | awaiting_run ↦ none
    | unlocking ↦ none
    | done ↦ none
  ]
