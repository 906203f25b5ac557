-- ===== src/Routes/IndexerStatus.antt =====
-- src/routes/indexerStatus.ts. The environment, the time of the checkpoint's last update and the latest
-- ledger of the RPC node are given.
use streamgive_backend.Prelude.{
  ℕ, String, Bool, true, false, not, ◌||◌, Option, none, some, List, [], ◌∷◌, ◌==◌, map, select,
  length, ltb, if◌then◌else◌, ℤ, pos, ◌-ℤ◌,
}
use streamgive_backend.Db.{Checkpoint}
use streamgive_backend.Indexer.Dispatch.{Contracts, watched_contract_ids}
use streamgive_backend.Middleware.AdminAuth.{split_comma, trim}

pub record IndexerStatus : Type 0 where
  pub configured : Bool
  pub checkpoint_ledger : Option ℕ
  pub updated_at : Option String
  pub latest_ledger : Option ℕ
  pub ledger_lag : Option ℤ

abbrev is_given : String → Bool
is_given s = not (s == "")

-- `watched` is `WATCHED_CONTRACT_IDS ?? CONTRACT_IDS` of the environment.
pub env_watched : (watched : Option String) → Contracts → List String
env_watched (some ids) c = select is_given (map trim (split_comma ids))
env_watched none c = select is_given (c.ngo_registry ∷ c.donation_vault ∷ [])

pub is_configured : Option String → Contracts → Bool
unfolding env_watched
is_configured watched c =
    ltb 0 (length (env_watched watched c)) || ltb 0 (length (watched_contract_ids c))

abbrev unconfigured : IndexerStatus
unconfigured = record {
  configured = false;
  checkpoint_ledger = none;
  updated_at = none;
  latest_ledger = none;
  ledger_lag = none;
}

-- GET /indexer/status
pub indexer_status :
    (watched : Option String)
    → Contracts
    → (checkpoint : Option Checkpoint) → (updated_at : Option String) → (latest_ledger : ℕ)
    → IndexerStatus
unfolding is_configured
indexer_status watched c checkpoint updated_at latest_ledger =
    if is_configured watched c
    then record {
      configured = true;
      checkpoint_ledger = elim checkpoint [ none ↦ none | some row ↦ some row.last_ledger ];
      updated_at = elim checkpoint [ none ↦ none | some row ↦ updated_at ];
      latest_ledger = some latest_ledger;
      ledger_lag = elim checkpoint [
        | none ↦ none
        | some row ↦ some (pos latest_ledger -ℤ pos row.last_ledger)
      ];
    }
    else unconfigured
