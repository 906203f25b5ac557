-- ===== src/Scripts/Reconcile.antt =====
-- src/scripts/reconcileVerification.ts: the on-chain status of every NGO against the database, read by a
-- pool of concurrent loops (`lanes`), and written back on demand. A step is what happens between two
-- awaits of a loop; nobody else writes the table meanwhile. A `findMany` that fails makes the function
-- reject before any loop starts; `main` only prints the report.
pub mod Ends
pub mod Spec
mod Rows
mod Lanes
mod Invariant
mod Moves
mod Steps
mod Starts
pub mod Refines
pub mod Again
use streamgive_backend.Prelude.{
  ℕ, zero, suc, ◌+◌, min, String, Bool, true, false, not, ◌&&◌, ◌||◌, Option, none, some, List, [],
  ◌∷◌, ◌++◌, ◌==◌, ◌<>◌, nat_eq, any, length, get_elem?, update_where, if◌then◌else◌, codes,
  includes,
}
use streamgive_backend.Db.{Ngo}
use streamgive_backend.Db.Exec.{Result, ok, err, Thrown, error, plain_error, record_not_found}

abbrev pub rpc_concurrency : ℕ
rpc_concurrency = 5

pub record ReconciliationMismatch : Type 0 where
  pub ngo_id : String
  pub owner_address : String
  pub db_verified : Bool
  pub on_chain_verified : Bool

pub record ReconciliationReport : Type 0 where
  pub checked : ℕ
  pub mismatches : List ReconciliationMismatch
  pub fixed : ℕ

-- What `simulateTransaction` answers: an error, or a result, which may lack its value.
pub data Simulation (ScVal : Type 0) : Type 0 where
  simulation_error : (error : String) → Simulation ScVal
  simulated : (retval : Option ScVal) → Simulation ScVal

-- What `scValToNative` returns: a boolean, or a value of another type, by its `typeof`.
pub data Decoded : Type 0 where
  boolean : Bool → Decoded
  of_type : String → Decoded

abbrev plain_thrown : String → Thrown
plain_thrown message = error plain_error "Error" message none

-- `registry` is the configured contract id; `simulate` builds the call of `verified` for an owner with
-- the Stellar SDK and sends it.
module _ {ScVal : Type 0} (registry : String) (simulate : String → Result (Simulation ScVal))
    (sc_val_to_native : ScVal → Decoded) where
  pub decoded_status : String → ScVal → Result (Option Bool)
  decoded_status owner_address ret = elim (sc_val_to_native ret) [
    | boolean verified ↦ ok (some verified)
    | of_type name ↦
        err
          (plain_thrown ("Unsupported verified return type for " <> owner_address <> ": " <> name))
  ]

  pub simulated_status : String → Simulation ScVal → Result (Option Bool)
  unfolding decoded_status
  simulated_status owner_address (simulation_error e) =
      if includes (codes e) (codes "NotRegistered") || includes (codes e) (codes "NotFound")
      then ok none
      else err (plain_thrown ("Simulation failed for " <> owner_address <> ": " <> e))
  simulated_status owner_address (simulated none) = ok none
  simulated_status owner_address (simulated (some ret)) = decoded_status owner_address ret

  unfoldable pub read_on_chain_verified : String → Result (Option Bool)
  unfolding simulated_status
  read_on_chain_verified owner_address =
      if registry == ""
      then err (plain_thrown "NGO_REGISTRY_CONTRACT_ID is not configured")
      else elim (simulate owner_address) [
        | err e ↦ err e
        | ok simulation ↦ simulated_status owner_address simulation
      ]

-- What a loop of `mapWithConcurrency` awaits, and the index that it is at: the on-chain status of an
-- NGO, or its update. A loop whose callback throws ends.
pub data Lane : Type 0 where
  reading : ℕ → Ngo → Lane
  updating : ℕ → Ngo → Bool → Lane
  finished : Lane
  failed : ℕ → Lane

-- `results` has holes where no loop has written yet; `rejected` is the first error, with which
-- `Promise.all` rejects.
pub record Pool : Type 0 where
  pub next_index : ℕ
  pub lanes : List Lane
  pub results : ℕ → Option (Option ReconciliationMismatch)
  pub rejected : Option Thrown
  pub table : List Ngo

abbrev pub put_lane : ℕ → Lane → List Lane → List Lane
put_lane k lane [] = []
put_lane zero lane (x ∷ xs) = lane ∷ xs
put_lane (suc k) lane (x ∷ xs) = x ∷ put_lane k lane xs

abbrev pub same_flag : Bool → Bool → Bool
same_flag true b = b
same_flag false b = not b

abbrev pub has_id : String → Ngo → Bool
has_id id ngo = ngo.id == id

abbrev pub set_verified : Bool → Ngo → Ngo
set_verified b ngo = record ngo { verified = b }

abbrev pub mismatch_of : Ngo → Bool → ReconciliationMismatch
mismatch_of ngo on_chain = record {
  ngo_id = ngo.id;
  owner_address = ngo.owner_address;
  db_verified = ngo.verified;
  on_chain_verified = on_chain;
}

abbrev pub first_error : Option Thrown → Thrown → Option Thrown
first_error none e = some e
first_error (some first) e = some first

-- `read` is `readOnChainVerified`, asked once for each owner; `ngos` is what `findMany` returned.
module _ (fix : Bool) (read : String → Result (Option Bool)) (ngos : List Ngo) where
  -- `while (nextIndex < items.length) { const index = nextIndex++; … }`, up to the next await.
  abbrev pub next_lane : Pool → Lane
  next_lane pool = elim (get_elem? ngos pool.next_index) [
    | some ngo ↦ reading pool.next_index ngo
    | none ↦ finished
  ]

  abbrev pub next_of : Pool → ℕ
  next_of pool = elim (get_elem? ngos pool.next_index) [
    | some ngo ↦ suc pool.next_index
    | none ↦ pool.next_index
  ]

  -- `results[index] = …`, and the loop goes on.
  abbrev pub settle : ℕ → ℕ → Option ReconciliationMismatch → Pool → Pool
  settle k index result pool = record pool {
    next_index = next_of pool;
    lanes = put_lane k (next_lane pool) pool.lanes;
    results = λ i. if nat_eq i index then some result else pool.results i;
  }

  abbrev pub fail_lane : ℕ → ℕ → Thrown → Pool → Pool
  fail_lane k index e pool = record pool {
    lanes = put_lane k (failed index) pool.lanes;
    rejected = first_error pool.rejected e;
  }

  -- The callback, after `readOnChainVerified`.
  unfoldable pub after_read : ℕ → ℕ → Ngo → Result (Option Bool) → Pool → Pool
  after_read k index ngo (err e) pool = fail_lane k index e pool
  after_read k index ngo (ok none) pool = settle k index none pool
  after_read k index ngo (ok (some on_chain)) pool =
      if same_flag on_chain ngo.verified
      then settle k index none pool
      else if fix
      then record pool { lanes = put_lane k (updating index ngo on_chain) pool.lanes }
      else settle k index (some (mismatch_of ngo on_chain)) pool

  -- The callback, after `prisma.ngo.update`, which fails as the database does or finds no row.
  unfoldable pub after_update : ℕ → ℕ → Ngo → Bool → Option Thrown → Pool → Pool
  after_update k index ngo on_chain (some e) pool = fail_lane k index e pool
  after_update k index ngo on_chain none pool =
      if any (has_id ngo.id) pool.table
      then settle k index (some (mismatch_of ngo on_chain))
          (record pool { table = update_where (has_id ngo.id) (set_verified on_chain) pool.table })
      else fail_lane k index record_not_found pool

  unfoldable pub advance : ℕ → Option Thrown → Lane → Pool → Option Pool
  advance k fault (reading index ngo) pool =
      some (after_read k index ngo (read ngo.owner_address) pool)
  advance k fault (updating index ngo on_chain) pool =
      some (after_update k index ngo on_chain fault pool)
  advance k fault finished pool = none
  advance k fault (failed index) pool = none

  -- The k-th loop's await settles.
  unfoldable pub step : ℕ → Option Thrown → Pool → Option Pool
  step k fault pool = elim (get_elem? pool.lanes k) [
    | none ↦ none
    | some lane ↦ advance k fault lane pool
  ]

  -- The awaits settle in the order of a schedule: the loop, and how its database call fails.
  unfoldable pub run : List (ℕ × Option Thrown) → Pool → Option Pool
  run [] pool = some pool
  run ((k, fault) ∷ schedule) pool = elim (step k fault pool) [
    | none ↦ none
    | some next ↦ run schedule next
  ]

  -- `Array.from({ length }, async () => …)`: the loops start one after the other.
  abbrev pub open_lanes : ℕ → Pool → Pool
  open_lanes zero pool = pool
  open_lanes (suc n) pool =
      open_lanes n
        (record pool { next_index = next_of pool; lanes = pool.lanes ++ next_lane pool ∷ [] })

  unfoldable pub start : Pool
  start =
      open_lanes (min rpc_concurrency (length ngos))
        (record { next_index = 0; lanes = []; results = λ i. none; rejected = none; table = ngos })

-- `results.filter((mismatch) => mismatch !== null)`, from an index on.
unfoldable pub filter_mismatches :
    (ℕ → Option (Option ReconciliationMismatch)) → ℕ → ℕ → List ReconciliationMismatch
filter_mismatches results index zero = []
filter_mismatches results index (suc n) =
    let rest = filter_mismatches results (suc index) n in
    elim (results index) [ some (some mismatch) ↦ mismatch ∷ rest | some none ↦ rest | none ↦ rest ]

abbrev pub at_rest : Lane → Bool
at_rest finished = true
at_rest (failed index) = true
at_rest (reading index ngo) = false
at_rest (updating index ngo on_chain) = false

abbrev pub all_finished : List Lane → Bool
all_finished [] = true
all_finished (lane ∷ lanes) = at_rest lane && all_finished lanes

unfoldable pub report : Bool → List Ngo → Pool → ReconciliationReport
report fix ngos pool = record {
  checked = length ngos;
  mismatches = filter_mismatches pool.results 0 (length ngos);
  fixed = (if fix then length (filter_mismatches pool.results 0 (length ngos)) else 0);
}

-- How `reconcileVerification` has settled, if it has.
unfoldable pub outcome : Bool → List Ngo → Pool → Option (Result ReconciliationReport)
outcome fix ngos pool = elim pool.rejected [
  | some e ↦ some (err e)
  | none ↦ if all_finished pool.lanes then some (ok (report fix ngos pool)) else none
]
