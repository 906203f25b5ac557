-- ===== src/Indexer/Dispatch/Frame.antt =====
-- Whatever the event, the dispatcher leaves the worker's state alone.
use streamgive_backend.Prelude.{String, Option, none, some}
use streamgive_backend.Db.Exec.{Env, World}
use streamgive_backend.Db.Keeps.{Keeps, keeps_rules}
use streamgive_backend.Indexer.Event.{Sdk, ContractEvent}
use streamgive_backend.Indexer.Frame.{SameWorker, same_worker}
use streamgive_backend.Indexer.Vault.Frame.{handle_donation_vault_event-SameWorker}
use streamgive_backend.Indexer.Registry.Frame.{handle_ngo_registry_event-SameWorker}
use streamgive_backend.Indexer.Dispatch.{Contracts, dispatch_to, dispatch_event}

module _ (env : Env) (contracts : Contracts) {ScVal : Type 0} (sdk : Sdk ScVal) where
  dispatch_to-SameWorker :
      (event : ContractEvent ScVal) (o : Option String)
      → Keeps same_worker (dispatch_to env contracts sdk event o)
  unfolding dispatch_to
  dispatch_to-SameWorker event none = search keeps_rules
  dispatch_to-SameWorker event (some id) =
      search
        (keeps_rules, handle_ngo_registry_event-SameWorker, handle_donation_vault_event-SameWorker)

  pub dispatch_event-Keeps :
      (event : ContractEvent ScVal) → Keeps same_worker (dispatch_event env contracts sdk event)
  unfolding dispatch_event
  dispatch_event-Keeps event = dispatch_to-SameWorker event event.contract_id

  -- Whichever contract the event names, and whether the dispatch returns or throws, the checkpoint,
  -- the position in memory and the metrics are as before.
  dispatch_event-SameWorker :
      (event : ContractEvent ScVal) (w : World)
      → SameWorker w (dispatch_event env contracts sdk event w).1
  dispatch_event-SameWorker event = (dispatch_event-Keeps event).at
