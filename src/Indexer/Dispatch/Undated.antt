-- ===== src/Indexer/Dispatch/Undated.antt =====
-- An event with no `ledgerClosedAt` writes no stream, whichever contract it is dispatched to.
use streamgive_backend.Prelude.{String, ◌≡◌, Option, none, some}
use streamgive_backend.Db.Exec.{Env}
use streamgive_backend.Db.Keeps.{Keeps, keeps_rules}
use streamgive_backend.Indexer.Event.{Sdk, ContractEvent}
use streamgive_backend.Indexer.Vault.Undated.{same_streams, handle_donation_vault_event-SameStreams}
use streamgive_backend.Indexer.Registry.Streams.{handle_ngo_registry_event-SameStreams}
use streamgive_backend.Indexer.Dispatch.{Contracts, dispatch_to, dispatch_event}

module _ (env : Env) (contracts : Contracts) {ScVal : Type 0} (sdk : Sdk ScVal)
    (event : ContractEvent ScVal) (undated : event.ledger_closed_at ≡ none) where
  dispatch_to-SameStreams :
      (o : Option String) → Keeps same_streams (dispatch_to env contracts sdk event o)
  unfolding dispatch_to
  dispatch_to-SameStreams none = search keeps_rules
  dispatch_to-SameStreams (some id) =
      search (
        keeps_rules, handle_ngo_registry_event-SameStreams, handle_donation_vault_event-SameStreams,
      )

  pub dispatch_event-SameStreams : Keeps same_streams (dispatch_event env contracts sdk event)
  unfolding dispatch_event
  dispatch_event-SameStreams = dispatch_to-SameStreams event.contract_id
