-- ===== src/Indexer/Worker/Progress.antt =====
-- How far a poll gets: the saved checkpoint, the metrics and the position in memory after a batch,
-- whether it ends well or throws.
use streamgive_backend.Prelude.{
  ℕ, suc, String, ◌∙◌, ◌+◌, ◌≤◌, ◌≡◌, refl, ap, Option, some, List, [], ◌∷◌, length, take, arith,
}
use streamgive_backend.Db.{Checkpoint}
use streamgive_backend.Db.Exec.{
  Result, ok, err, Thrown, Env, Exec, World, Metrics, ◌>>◌, throw, modify, prisma,
}
use streamgive_backend.Db.Keeps.{Keeps}
use streamgive_backend.Db.Split.{bind-with, catch-with, if-split}
use streamgive_backend.Indexer.Event.{Sdk, ContractEvent}
use streamgive_backend.Indexer.Errors.{is_decode_or_validation_error}
use streamgive_backend.Indexer.DeadLetters.{record_dead_letter}
use streamgive_backend.Indexer.Frame.{SameWorker, same_worker, record_dead_letter-SameWorker}
use streamgive_backend.Indexer.Worker.{
  attempt, dead_letter_or_throw, checkpoint_at, process_events, record_event_processed,
  record_event_dead_lettered, save_checkpoint,
}

-- The number of events that the metrics say are done with.
abbrev pub settled : World → ℕ
settled w = w.metrics.events_processed + w.metrics.events_dead_lettered

abbrev pub checkpoint_of : {ScVal : Type 0} → ContractEvent ScVal → Checkpoint
checkpoint_of event = record { last_ledger = event.ledger; last_event_id = some event.id }

-- The checkpoint once the events are behind it.
abbrev pub checkpoint_after :
    {ScVal : Type 0} → Option Checkpoint → List (ContractEvent ScVal) → Option Checkpoint
checkpoint_after c [] = c
checkpoint_after c (event ∷ events) = checkpoint_after (some (checkpoint_of event)) events

-- An event is settled, or nothing that the worker keeps has changed.
abbrev Attempted : World → Result Unit × World → Type 0
Attempted w (ok a, w') =
    (w'.database.checkpoint ≡ w.database.checkpoint) × (settled w' ≡ settled w + 1)
Attempted w (err e, w') =
    (w'.database.checkpoint ≡ w.database.checkpoint) × (settled w' ≡ settled w)

-- The checkpoint is saved, or the database has the old one; the metrics are as before.
abbrev Saved : Checkpoint → World → Result Unit × World → Type 0
Saved c w (ok a, w') = (w'.database.checkpoint ≡ some c) × (w'.metrics ≡ w.metrics)
Saved c w (err e, w') = (w'.database.checkpoint ≡ w.database.checkpoint) × (w'.metrics ≡ w.metrics)

abbrev KeepsWorker : {A : Type 0} → World → Result A × World → Type 0
KeepsWorker w (r, w') = SameWorker w w'

module _ (env : Env) where
  checkpoint_at-Saved :
      (ledger : ℕ) (id : Option String) (w : World)
      → Saved
          (record { last_ledger = ledger; last_event_id = id })
          w
          (checkpoint_at env ledger id w)
  unfolding checkpoint_at save_checkpoint prisma
  checkpoint_at-Saved ledger id w = ground arith

module _ (env : Env) {ScVal : Type 0} (sdk : Sdk ScVal) where
  settle :
      (event : ContractEvent ScVal) (e : Thrown) (v w : World)
      → SameWorker v w
      → Attempted v (dead_letter_or_throw env sdk event e w)
  unfolding dead_letter_or_throw
  settle event e v w h =
      let count = modify record_event_dead_lettered in
      if-split (Attempted v) (is_decode_or_validation_error e)
        (record_dead_letter sdk env event e >> count) (throw e) w
        (λ _.
          bind-with (KeepsWorker w) (Attempted v) (record_dead_letter sdk env event e) (λ _. count)
            w ((record_dead_letter-SameWorker env sdk event e).at w) (λ a u s. ground arith)
            (λ fault u s. ground arith))
        (λ _. (h.checkpoint, ground arith))

  module _ (handle : ContractEvent ScVal → Exec Unit)
      (keeps : (event : ContractEvent ScVal) → Keeps same_worker (handle event)) where
    abbrev Handled : World → Result Unit × World → Type 0
    Handled w (ok a, w') =
        (w'.database.checkpoint ≡ w.database.checkpoint) × (settled w' ≡ settled w + 1)
    Handled w (err e, w') = SameWorker w w'

    attempt-Attempted :
        (event : ContractEvent ScVal) (w : World) → Attempted w (attempt env sdk handle event w)
    unfolding attempt
    attempt-Attempted event w =
        let count = modify record_event_processed in
        catch-with (Handled w) (Attempted w) (handle event >> count)
          (dead_letter_or_throw env sdk event) w
          (bind-with (KeepsWorker w) (Handled w) (handle event) (λ _. count) w ((keeps event).at w)
            (λ a u s. ground arith) (λ e u s. s))
          (λ a u h. h) (λ e u s. settle event e w u s)

-- A batch that ends well has passed and settled all its events.
abbrev Completes :
    {ScVal : Type 0} → List (ContractEvent ScVal) → World → ℕ → Result Unit × World → Type 0
Completes events w passed (ok a, v) =
    (passed ≡ length events) × (settled v ≡ settled w + length events)
Completes events w passed (err e, v) = Unit {0}

-- The first `passed` events are behind the saved checkpoint, and no other; they are settled, and at
-- most one more, whose checkpoint was not saved.
pub record Progress {ScVal : Type 0} (events : List (ContractEvent ScVal)) (w : World)
    (result : Result Unit × World) : Type 0 where
  pub passed : ℕ
  pub within : passed ≤ length events
  pub saved :
      result.1.database.checkpoint ≡ checkpoint_after w.database.checkpoint (take passed events)
  pub settled_from : settled w + passed ≤ settled result.1
  pub settled_to : settled result.1 ≤ settled w + passed + 1
  pub complete : Completes events w passed result

module _ {ScVal : Type 0} where
  stopped :
      (events : List (ContractEvent ScVal)) (w v : World) (e : Thrown)
      → v.database.checkpoint ≡ w.database.checkpoint
      → settled w ≤ settled v
      → settled v ≤ settled w + 1
      → Progress events w (err e, v)
  stopped events w v e saved from to = record {
    passed = 0;
    within = omega arith;
    saved = saved;
    settled_from = omega arith;
    settled_to = omega arith;
    complete = tt;
  }

  more_complete :
      (event : ContractEvent ScVal) (events : List (ContractEvent ScVal)) (w u : World) (passed : ℕ)
      (r : Result Unit × World)
      → settled u ≡ settled w + 1
      → Completes events u passed r
      → Completes (event ∷ events) w (suc passed) r
  more_complete event events w u passed (ok a, v) s (all, count) = (ap suc all, omega arith)
  more_complete event events w u passed (err e, v) s c = tt

  one_more :
      (event : ContractEvent ScVal) (events : List (ContractEvent ScVal)) (w v u : World)
      {r : Result Unit × World}
      → Attempted w (ok tt, v)
      → Saved (checkpoint_of event) v (ok tt, u)
      → Progress events u r
      → Progress (event ∷ events) w r
  one_more event events w v u {r} a s p =
      let same = ap (λ (m : Metrics). m.events_processed + m.events_dead_lettered) s.1 in
      record {
        passed = suc p.passed;
        within = omega (arith, p.within);
        saved = rw s.0 at p.saved;
        settled_from = omega (arith, p.settled_from, a.1, same);
        settled_to = omega (arith, p.settled_to, a.1, same);
        complete = more_complete event events w u p.passed r (same ∙ a.1) p.complete;
      }

module _ (env : Env) {ScVal : Type 0} (sdk : Sdk ScVal) (handle : ContractEvent ScVal → Exec Unit)
    (keeps : (event : ContractEvent ScVal) → Keeps same_worker (handle event)) where
  -- With any handler that leaves the worker's state alone, and however the handler, the dead letters
  -- and the database fail: after a batch, whether it returns or throws, a prefix of the events is
  -- behind the saved checkpoint, which names the last of them; the metrics count each of these as
  -- processed or dead-lettered, and at most one event more; and a batch that returns has passed all.
  pub process_events-Progress :
      (events : List (ContractEvent ScVal)) (w : World)
      → Progress events w (process_events env sdk handle events w)
  unfolding process_events checkpoint_at
  process_events-Progress [] w = record {
    passed = 0;
    within = omega arith;
    saved = refl;
    settled_from = omega arith;
    settled_to = omega arith;
    complete = (refl, omega arith);
  }
  process_events-Progress (event ∷ events) w =
      let rest = λ (_ : Unit {0}). process_events env sdk handle events in
      let save = checkpoint_at env event.ledger (some event.id) in
      let done = Progress (event ∷ events) w in
      bind-with (Attempted w) done (attempt env sdk handle event) (λ _. save >> rest tt) w
        (attempt-Attempted env sdk handle keeps event w)
        (λ _ v a.
          bind-with (Saved (checkpoint_of event) v) done save rest v
            (checkpoint_at-Saved env event.ledger (some event.id) v)
            (λ _ u s. one_more event events w v u a s (process_events-Progress events u))
            (λ e u s. stopped (event ∷ events) w u e (s.0 ∙ a.0) (ground arith) (ground arith)))
        (λ e v a. stopped (event ∷ events) w v e a.0 (ground arith) (ground arith))
