-- ===== src/Indexer/Worker/Poll.antt =====
-- `pollOnce` as a whole: memory and database agree after a poll that returns, the position does not
-- go back while the RPC is not behind it, and when it does.
use streamgive_backend.Prelude.{
  ℕ, ◌<◌, String, ◌≡◌, ◌≢◌, refl, ◌∙◌, ◌&&◌, Option, none, some, List, [], ◌∷◌, leb, inl, inr,
  arith,
}
use streamgive_backend.Db.{Checkpoint}
use streamgive_backend.Db.Exec.{
  Result, ok, err, Env, Exec, World, ◌>>◌, throw, modify, prisma, pure, Result-cases,
}
use streamgive_backend.Db.Split.{bind-with, if-split, prisma-split}
use streamgive_backend.Indexer.Event.{Sdk, ContractEvent}
use streamgive_backend.Indexer.Errors.{is_ledger_out_of_range}
use streamgive_backend.Indexer.Worker.{
  Config, Rpc, Request, attempt, checkpoint_at, save_checkpoint, process_events, process_batch,
  after_fetch, fetch, poll_from, resume, poll_watched, poll_once, request_from,
  record_events_skipped, is_none, record_indexer_position, set_position, first_ledger,
  get_checkpoint_state,
}

-- The position in memory is the one in the database, once there is one.
abbrev PositionAgrees : Option ℕ → Option String → Option Checkpoint → Type 0
PositionAgrees none id c = id ≡ none
PositionAgrees (some ledger) id c = c ≡ some (record { last_ledger = ledger; last_event_id = id })

abbrev pub InSync : World → Type 0
InSync w = PositionAgrees w.last_processed_ledger w.last_processed_event_id w.database.checkpoint

-- A result that is in sync if it is no error.
abbrev Synced : Result Unit × World → Type 0
Synced (ok a, w) = InSync w
Synced (err e, w) = Unit {0}

-- What reading the checkpoint answers.
abbrev Read : World → Result (Option Checkpoint) × World → Type 0
Read w (ok saved, v) =
    (v.database.checkpoint ≡ saved) × (v.last_processed_event_id ≡ w.last_processed_event_id)
Read w (err e, v) = Unit {0}

module _ (env : Env) where
  checkpoint_at-Synced :
      (ledger : ℕ) (id : Option String) (w : World) → Synced (checkpoint_at env ledger id w)
  unfolding checkpoint_at save_checkpoint prisma
  checkpoint_at-Synced ledger id w = ground arith

  get_checkpoint_state-Read : (w : World) → Read w (get_checkpoint_state env w)
  unfolding get_checkpoint_state
  get_checkpoint_state-Read w = prisma-split env (Read w) _ w (λ e. tt) (refl, refl)

  module _ {ScVal : Type 0} (sdk : Sdk ScVal) (handle : ContractEvent ScVal → Exec Unit) where
    process_events-Synced :
        (events : List (ContractEvent ScVal)) (w : World)
        → InSync w
        → Synced (process_events env sdk handle events w)
    unfolding process_events
    process_events-Synced [] w h = h
    process_events-Synced (event ∷ events) w h =
        let rest = λ (_ : Unit {0}). process_events env sdk handle events in
        let save = checkpoint_at env event.ledger (some event.id) in
        bind-with (λ r. Unit {0}) Synced (attempt env sdk handle event) (λ _. save >> rest tt) w tt
          (λ _ v _.
            bind-with Synced Synced save rest v
              (checkpoint_at-Synced event.ledger (some event.id) v)
              (λ _ u s. process_events-Synced events u s) (λ e u s. tt))
          (λ e v _. tt)

    after_fetch-Synced :
        (latest : ℕ) (answer : Result (List (ContractEvent ScVal))) (w : World)
        → InSync w
        → Synced (after_fetch env sdk handle latest answer w)
    unfolding after_fetch process_batch
    after_fetch-Synced latest (ok []) w h = checkpoint_at-Synced latest none w
    after_fetch-Synced latest (ok (event ∷ events)) w h = process_events-Synced (event ∷ events) w h
    after_fetch-Synced latest (err e) w h =
        if-split Synced (is_ledger_out_of_range e)
          (checkpoint_at env latest none >> modify record_events_skipped) (throw e) w
          (λ _.
            bind-with Synced Synced (checkpoint_at env latest none)
              (λ _. modify record_events_skipped) w (checkpoint_at-Synced latest none w)
              (λ _ v s. s) (λ e v s. tt))
          (λ _. tt)

    module _ (config : Config) (rpc : Rpc ScVal) where
      fetch-Synced :
          (last latest : ℕ) (id : Option String) (w : World)
          → InSync w
          → Synced (fetch env sdk handle config rpc last latest id w)
      unfolding fetch
      fetch-Synced last latest id w h =
          let answer = rpc.get_events (request_from env sdk handle config rpc last id) in
          if-split Synced (leb latest last && is_none id) (pure tt)
            (after_fetch env sdk handle latest answer) w (λ _. h)
            (λ _. after_fetch-Synced latest answer w h)

      poll_from-Synced :
          (last : ℕ) (w : World) → InSync w → Synced (poll_from env sdk handle config rpc last w)
      unfolding poll_from
      poll_from-Synced last w h = elim (Result-cases rpc.latest_ledger) [
        | inr (e, silent) ↦ rw silent tt
        | inl (latest, answered) ↦ rw answered (
            fetch-Synced last latest w.last_processed_event_id
              (record_indexer_position last latest w) h)
      ]

      resume-Synced :
          (saved : Option Checkpoint) (w : World)
          → w.database.checkpoint ≡ saved
          → w.last_processed_event_id ≡ none
          → Synced (resume env sdk handle config rpc saved w)
      unfolding resume first_ledger save_checkpoint prisma
      resume-Synced (some saved) w h i =
          poll_from-Synced saved.last_ledger (set_position saved.last_ledger saved.last_event_id w)
            h
      resume-Synced none w h i = ground arith

      poll_watched-Synced :
          (last : Option ℕ) (w : World)
          → w.last_processed_ledger ≡ last
          → InSync w
          → Synced (poll_watched env sdk handle config rpc last w)
      unfolding poll_watched
      poll_watched-Synced (some last) w e h = poll_from-Synced last w h
      poll_watched-Synced none w e h =
          bind-with (Read w) Synced (get_checkpoint_state env) (resume env sdk handle config rpc) w
            (get_checkpoint_state-Read w) (λ saved v r. resume-Synced saved v r.0 (r.1 ∙ rw e at h))
            (λ x v r. tt)

      poll_once-Synced : (w : World) → InSync w → Synced (poll_once env sdk handle config rpc w)
      unfolding poll_once
      poll_once-Synced w h = ground (arith, poll_watched-Synced w.last_processed_ledger w refl h)

-- When memory and database agree on the position before a poll (or the process has not yet read
-- one), and the poll returns, they agree on it after the poll: a restart resumes where the process
-- stood. This holds for every handler, every answer of the RPC and every database fault.
pub poll_once-InSync :
    (env : Env) {ScVal : Type 0} (sdk : Sdk ScVal) (handle : ContractEvent ScVal → Exec Unit)
    (config : Config) (rpc : Rpc ScVal) (w : World) {w' : World}
    → InSync w
    → poll_once env sdk handle config rpc w ≡ (ok tt, w')
    → InSync w'
poll_once-InSync env sdk handle config rpc w h e =
    rw e at (poll_once-Synced env sdk handle config rpc w h)

checkpoint_at_returns :
    (env : Env) (ledger : ℕ) (id : Option String) (w : World)
    → env.fault w.calls ≡ none
    → let (r, w') = checkpoint_at env ledger id w in
      (r ≡ ok tt)
      × (w'.last_processed_ledger ≡ some ledger)
      × (w'.last_processed_event_id ≡ id)
      × (w'.database.checkpoint ≡ some (record { last_ledger = ledger; last_event_id = id }))
unfolding checkpoint_at prisma
checkpoint_at_returns env ledger id w quiet = ground arith

poll_from_idle :
    (env : Env) {ScVal : Type 0} (sdk : Sdk ScVal) (handle : ContractEvent ScVal → Exec Unit)
    (config : Config) (rpc : Rpc ScVal) (w : World) (last latest : ℕ) (id : String)
    → w.last_processed_event_id ≡ some id
    → rpc.latest_ledger ≡ ok latest
    → latest < last
    → ((request : Request) → rpc.get_events request ≡ ok [])
    → poll_from env sdk handle config rpc last w
      ≡ checkpoint_at env latest none (record_indexer_position last latest w)
unfolding poll_from
poll_from_idle env sdk handle config rpc w last latest id event answered older idle =
    rw (answered, event, idle) (ground arith)

-- If the position in memory is inside an event (it has an event id), the RPC reports an older ledger
-- as its latest one and answers that there are no events, and the database does not fail, then the
-- poll returns with the position and the checkpoint moved back to that older ledger.
pub poll_once_rewinds :
    (env : Env) {ScVal : Type 0} (sdk : Sdk ScVal) (handle : ContractEvent ScVal → Exec Unit)
    (config : Config) (rpc : Rpc ScVal) (w : World) (last latest : ℕ) (id : String)
    → config.watched ≢ []
    → w.last_processed_ledger ≡ some last
    → w.last_processed_event_id ≡ some id
    → rpc.latest_ledger ≡ ok latest
    → latest < last
    → ((request : Request) → rpc.get_events request ≡ ok [])
    → ((n : ℕ) → env.fault n ≡ none)
    → let (r, w') = poll_once env sdk handle config rpc w in
      (r ≡ ok tt)
      × (w'.last_processed_ledger ≡ some latest)
      × (w'.last_processed_event_id ≡ none)
      × (w'.database.checkpoint ≡ some (record { last_ledger = latest; last_event_id = none }))
unfolding poll_once poll_watched
poll_once_rewinds env sdk handle config rpc w last latest id watched ledger event answered older
      idle quiet =
    let e = poll_from_idle env sdk handle config rpc w last latest id event answered older idle in
    let c =
      checkpoint_at_returns env latest none (record_indexer_position last latest w)
        (quiet w.calls) in
    ground (arith, e, c)
