-- ===== src/Indexer/Lifecycle/Claims.antt =====
-- Which client a worker of src/indexer/worker.ts takes the advisory lock to be held by, and how a step
-- changes that.
use streamgive_backend.Prelude.{
  ℕ, Bool, true, false, not, ◌&&◌, Option, none, some, ◌≡◌, ◌⊎◌, inl, inr, refl, arith,
  if◌then◌else◌,
}
use streamgive_backend.Indexer.Lifecycle.{
  Stop, Worker, Event, step, start, idle, dropping, polling, answered, not_called, awaiting_run,
  query_executes, ended, unlocked, closed, timer_fires, query_returns, query_fails, socket_fails,
  stop_called, run_settles, connected, polled,
}
use streamgive_backend.Indexer.Lifecycle.System.{client_of}

abbrev pub claims : Worker → Option ℕ
claims w = elim w.awaits [
  | answered b ↦ if b then some w.clients else none
  | _ ↦ elim w.indexer_lock [
    | none ↦ none
    | some lock ↦ if lock.released then none else some lock.client
  ]
]

-- The stop function has not gone past `await inFlight`.
abbrev in_service : Stop → Bool
in_service not_called = true
in_service awaiting_run = true
in_service _ = false

abbrev pub shape : Worker → Bool
shape w = elim w.awaits [
  | idle ↦ elim w.indexer_lock [
    | none ↦ true
    | some lock ↦ if in_service w.stop then not (lock.held && lock.released) else lock.released
  ]
  | dropping ↦
      in_service w.stop
      && elim w.indexer_lock [ none ↦ false | some lock ↦ lock.released && not lock.held ]
  | polling ↦
      in_service w.stop && elim w.indexer_lock [ none ↦ false | some lock ↦ not lock.released ]
  | _ ↦ in_service w.stop && elim w.indexer_lock [ none ↦ true | some lock ↦ false ]
]

-- The events that touch the server.
abbrev pub quiet : Event → Bool
quiet query_executes = false
quiet (ended resolved) = false
quiet (unlocked resolved) = false
quiet (closed resolved) = false
quiet _ = true

module _ (interval : ℕ) where
  pub shape-step :
      (locked : Bool) (e : Event) (w : Worker) {w' : Worker}
      → step interval locked e w ≡ some w'
      → shape w ≡ true
      → shape w' ≡ true
  unfolding step
  shape-step locked timer_fires w h s = ground arith
  shape-step locked (connected r) w h s = ground arith
  shape-step locked query_executes w h s = ground arith
  shape-step locked query_returns w h s = ground arith
  shape-step locked query_fails w h s = ground arith
  shape-step locked (ended r) w h s = ground arith
  shape-step locked (polled r) w h s = ground arith
  shape-step locked socket_fails w h s = ground arith
  shape-step locked stop_called w h s = ground arith
  shape-step locked run_settles w h s = ground arith
  shape-step locked (unlocked r) w h s = ground arith
  shape-step locked (closed r) w h s = ground arith

  -- A claim was there before, and the step left the server alone, or it is the lock just granted.
  pub claims-step :
      (locked : Bool) (e : Event) (w : Worker) {w' : Worker} {k : ℕ}
      → step interval locked e w ≡ some w'
      → shape w ≡ true
      → claims w' ≡ some k
      → ((claims w ≡ some k) × (quiet e ≡ true))
        ⊎ ((e ≡ query_executes) × (locked ≡ true) × (k ≡ client_of w))
  unfolding step
  claims-step locked timer_fires w h s c = inl (ground arith, refl)
  claims-step locked (connected r) w h s c = inl (ground arith, refl)
  claims-step locked query_executes w h s c = inr (refl, ground arith, ground arith)
  claims-step locked query_returns w h s c = inl (ground arith, refl)
  claims-step locked query_fails w h s c = inl (ground arith, refl)
  claims-step locked (ended r) w h s c = absurd (ground arith)
  claims-step locked (polled r) w h s c = inl (ground arith, refl)
  claims-step locked socket_fails w h s c = inl (ground arith, refl)
  claims-step locked stop_called w h s c = inl (ground arith, refl)
  claims-step locked run_settles w h s c = inl (ground arith, refl)
  claims-step locked (unlocked r) w h s c = absurd (ground arith)
  claims-step locked (closed r) w h s c = absurd (ground arith)

-- A worker that polls claims a session.
pub claims-polling :
    (w : Worker) → w.awaits ≡ polling → shape w ≡ true → claims w ≡ some (client_of w)
claims-polling w p s = ground arith

pub shape-start : shape start ≡ true
shape-start = refl

pub claims-start : claims start ≡ none
claims-start = refl
