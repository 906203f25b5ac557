-- ===== src/Indexer/Frame.antt =====
-- What the handlers leave to the worker: the checkpoint, the position in memory and the metrics.
use streamgive_backend.Prelude.{◌≡◌, refl, ◌∙◌}
use streamgive_backend.Db.{Database}
use streamgive_backend.Db.Exec.{Env, World, Thrown, prisma, Result}
use streamgive_backend.Db.Keeps.{Relation, Keeps, Keeps-prisma, keeps_rules}
use streamgive_backend.Indexer.Event.{Sdk, ContractEvent}
use streamgive_backend.Indexer.DeadLetters.{record_dead_letter}

-- The fields that no handler writes.
pub record SameWorker (v w : World) : Type 0 where
  pub checkpoint : w.database.checkpoint ≡ v.database.checkpoint
  pub ledger : w.last_processed_ledger ≡ v.last_processed_ledger
  pub event_id : w.last_processed_event_id ≡ v.last_processed_event_id
  pub metrics : w.metrics ≡ v.metrics

abbrev pub same_worker : Relation
same_worker = record {
  holds = SameWorker;
  same = λ w. record { checkpoint = refl; ledger = refl; event_id = refl; metrics = refl };
  after = λ {u} {v} {w} a b. record {
    checkpoint = b.checkpoint ∙ a.checkpoint;
    ledger = b.ledger ∙ a.ledger;
    event_id = b.event_id ∙ a.event_id;
    metrics = b.metrics ∙ a.metrics;
  };
  ticks = λ w. record { checkpoint = refl; ledger = refl; event_id = refl; metrics = refl };
  rolls = λ v w h. record {
    checkpoint = refl;
    ledger = h.ledger;
    event_id = h.event_id;
    metrics = h.metrics;
  };
}

-- A query that keeps the checkpoint row.
pub SameWorker-prisma :
    (env : Env) {A : Type 0} (f : Database → Result A × Database)
    → ((db : Database) → (f db).1.checkpoint ≡ db.checkpoint)
    → Keeps same_worker (prisma env f)
SameWorker-prisma env f h =
    Keeps-prisma env f
      λ w. record { checkpoint = h w.database; ledger = refl; event_id = refl; metrics = refl }

pub record_dead_letter-SameWorker :
    (env : Env) {ScVal : Type 0} (sdk : Sdk ScVal) (event : ContractEvent ScVal) (e : Thrown)
    → Keeps same_worker (record_dead_letter sdk env event e)
unfolding record_dead_letter
record_dead_letter-SameWorker env sdk event e = search (keeps_rules, SameWorker-prisma)
