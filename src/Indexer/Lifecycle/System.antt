-- ===== src/Indexer/Lifecycle/System.antt =====
-- The workers of src/indexer/worker.ts that share one Postgres server, whose advisory lock of
-- src/indexer/lock.ts is a parameter.
use streamgive_backend.Indexer.Lifecycle.{
  Worker, Event, query_executes, ended, unlocked, closed, timer_fires, query_returns, query_fails,
  socket_fails, stop_called, run_settles, connected, polled, step,
}
use streamgive_backend.Prelude.{
  ℕ, nat_eq, Bool, true, false, not, ◌&&◌, Option, none, some, if◌then◌else◌, List, ◌∷◌, any, ◌≡◌,
}

-- The session of a worker's n-th client.
pub record Session : Type 0 where
  pub worker : ℕ
  pub client : ℕ

-- A Postgres server: the session that owns the indexer's advisory lock; the answer and the effect of
-- `pg_try_advisory_lock`, the effect of `pg_advisory_unlock` and of a session's end.
pub record Server (Store : Type 0) : Type 0 where
  pub owner : Store → Option Session
  pub locks : Session → Store → Bool
  pub try_lock : Session → Store → Store
  pub unlock : Session → Store → Store
  pub close : Session → Store → Store

-- What Postgres documents of a session-level advisory lock: it is granted to a session only when no
-- other one owns it, and goes only when its owner unlocks it or ends.
pub record IsAdvisory {Store : Type 0} (server : Server Store) : Type 0 where
  pub granted :
      {x : Store} {s : Session}
      → server.locks s x ≡ true
      → server.owner (server.try_lock s x) ≡ some s
  pub exclusive :
      {x : Store} {s t : Session} → server.locks s x ≡ true → server.owner x ≡ some t → t ≡ s
  pub refused :
      {x : Store} {s : Session}
      → server.locks s x ≡ false
      → server.owner (server.try_lock s x) ≡ server.owner x
  pub unlock-keeps :
      {x : Store} {s t : Session}
      → ¬ (t ≡ s)
      → server.owner x ≡ some t
      → server.owner (server.unlock s x) ≡ some t
  pub close-keeps :
      {x : Store} {s t : Session}
      → ¬ (t ≡ s)
      → server.owner x ≡ some t
      → server.owner (server.close s x) ≡ some t

-- The workers, by number; the server; the sessions that it has ended on its own.
pub record System (Store : Type 0) : Type 0 where
  pub workers : ℕ → Worker
  pub store : Store
  pub lost : List Session

-- What happens next: an event of a worker, or the server ends a session.
pub data Move : Type 0 where
  acts : ℕ → Event → Move
  loses : Session → Move

-- The client that the worker's code works with: its lock's, or the last one it opened.
abbrev pub client_of : Worker → ℕ
client_of w = elim w.indexer_lock [ none ↦ w.clients | some lock ↦ lock.client ]

abbrev pub session : ℕ → ℕ → Session
session i k = record { worker = i; client = k }

abbrev pub session_of : ℕ → Worker → Session
session_of i w = session i (client_of w)

abbrev pub same_session : Session → Session → Bool
same_session s t = nat_eq s.worker t.worker && nat_eq s.client t.client

abbrev pub is_lost : Session → List Session → Bool
is_lost s lost = any (same_session s) lost

abbrev pub put : ℕ → Worker → (ℕ → Worker) → ℕ → Worker
put i w workers j = if nat_eq j i then w else workers j

-- The server executes no query of a session that it has ended.
unfoldable pub can_happen : Session → Event → List Session → Bool
can_happen s query_executes lost = not (is_lost s lost)
can_happen s _ lost = true

module _ {Store : Type 0} (server : Server Store) where
  -- What an event of a worker does to the server.
  unfoldable pub effect : Session → Event → Store → Store
  effect s query_executes x = server.try_lock s x
  effect s (unlocked resolved) x = if resolved then server.unlock s x else x
  effect s (ended resolved) x = if resolved then server.close s x else x
  effect s (closed resolved) x = if resolved then server.close s x else x
  effect s timer_fires x = x
  effect s query_returns x = x
  effect s query_fails x = x
  effect s socket_fails x = x
  effect s stop_called x = x
  effect s run_settles x = x
  effect s (connected resolved) x = x
  effect s (polled resolved) x = x

  unfoldable pub move : (poll_interval_ms : ℕ) → Move → System Store → Option (System Store)
  move poll_interval_ms (acts i event) sys =
      if can_happen (session_of i (sys.workers i)) event sys.lost
      then elim (step poll_interval_ms (server.locks (session_of i (sys.workers i)) sys.store) event
          (sys.workers i)) [
            | none ↦ none
            | some w ↦ some (record sys {
              workers = put i w sys.workers;
              store = effect (session_of i (sys.workers i)) event sys.store;
            })
          ]
      else none
  move poll_interval_ms (loses s) sys =
      some (record sys { store = server.close s sys.store; lost = s ∷ sys.lost })
