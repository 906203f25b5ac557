-- ===== src/Indexer/Dispatch.antt =====
-- src/indexer/dispatch.ts and src/indexer/contracts.ts: which contract an event belongs to.
pub mod Frame
pub mod Undated
use streamgive_backend.Prelude.{
  String, Bool, not, Option, none, some, List, [], ◌∷◌, ◌==◌, select, if◌then◌else◌,
}
use streamgive_backend.Db.Exec.{Env, Exec, pure, Result, ok, err}
use streamgive_backend.Indexer.Event.{Sdk, ContractEvent}
use streamgive_backend.Indexer.Vault.{handle_donation_vault_event}
use streamgive_backend.Indexer.Registry.{handle_ngo_registry_event}

-- `process.env.… ?? ''`
pub record Contracts : Type 0 where
  pub ngo_registry : String
  pub donation_vault : String

pub watched_contract_ids : Contracts → List String
watched_contract_ids c = select (λ id. not (id == "")) (c.ngo_registry ∷ c.donation_vault ∷ [])

-- `reader.isVerified`, which throws or answers.
pub read_on_chain_verified_status :
    Contracts → (String → Result Bool) → String → Result (Option Bool)
read_on_chain_verified_status c is_verified ngo_id =
    if c.ngo_registry == ""
    then ok none
    else elim (is_verified ngo_id) [ ok verified ↦ ok (some verified) | err e ↦ ok none ]

module _ (env : Env) (contracts : Contracts) {ScVal : Type 0} (sdk : Sdk ScVal) where
  pub dispatch_to : ContractEvent ScVal → Option String → Exec Unit
  dispatch_to event none = pure tt
  dispatch_to event (some id) =
      if id == contracts.ngo_registry
      then handle_ngo_registry_event env sdk event
      else if id == contracts.donation_vault
      then handle_donation_vault_event env sdk event
      else pure tt

  pub dispatch_event : ContractEvent ScVal → Exec Unit
  unfolding dispatch_to
  dispatch_event event = dispatch_to event event.contract_id
