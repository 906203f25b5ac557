-- ===== src/Tests/Reconcile.antt =====
-- A reconciliation of src/scripts/reconcileVerification.ts, of three NGOs.
use streamgive_backend.Prelude.{
  ℕ, ◌*◌, ◌≤◌, String, Bool, true, false, Option, none, some, List, [], ◌∷◌, ◌≡◌, ◌⊎◌, refl, length,
  map, ◌==◌, if◌then◌else◌,
}
use streamgive_backend.Db.{Ngo}
use streamgive_backend.Db.Exec.{Result, ok, Thrown}
use streamgive_backend.Scripts.Reconcile.{
  ReconciliationReport, Simulation, simulation_error, simulated, boolean, read_on_chain_verified,
  Pool, after_read, after_update, advance, step, run, start, report, outcome, filter_mismatches,
}
use streamgive_backend.Scripts.Reconcile.Spec.{correct}
use streamgive_backend.Scripts.Reconcile.Ends.{run_ends}
use streamgive_backend.Scripts.Reconcile.Refines.{pass_in_order, run_refines}
use streamgive_backend.Scripts.Reconcile.Again.{reconciled_once}

-- The contract knows the first NGO as verified, the second one not at all, the third one as not verified.
abbrev simulate : String → Result (Simulation Bool)
simulate owner =
    if owner == "GA"
    then ok (simulated (some true))
    else if owner == "GB"
    then ok (simulation_error "HostError: NotRegistered")
    else ok (simulated (some false))

read : String → Result (Option Bool)
read = read_on_chain_verified "CREGISTRY" simulate boolean

abbrev ngos : List Ngo
ngos =
    record { id = "1"; owner_address = "GA"; name = "A"; verified = false }
    ∷ record { id = "2"; owner_address = "GB"; name = "B"; verified = true }
    ∷ record { id = "3"; owner_address = "GC"; name = "C"; verified = true }
    ∷ []

-- The second loop's answer comes first, the first loop's update last.
abbrev schedule : List (ℕ × Option Thrown)
schedule = (1, none) ∷ (0, none) ∷ (2, none) ∷ (2, none) ∷ (0, none) ∷ []

abbrev last : Bool → List Ngo → List (ℕ × Option Thrown) → Pool
last fix rows moves = elim (run fix read rows moves (start fix read rows)) [
  | none ↦ start fix read rows
  | some pool ↦ pool
]

abbrev fixed : Pool
fixed = last true ngos schedule

abbrev second : List (ℕ × Option Thrown)
second = (2, none) ∷ (1, none) ∷ (0, none) ∷ []

ran : run true read ngos schedule (start true read ngos) ≡ some fixed
unfolding run start step advance after_read after_update read read_on_chain_verified
ran = refl

ran_again :
    run true read fixed.table second (start true read fixed.table)
    ≡ some (last true fixed.table second)
unfolding run start step advance after_read after_update read read_on_chain_verified
ran_again = refl

resolved : outcome true ngos fixed ≡ some (ok (report true ngos fixed))
unfolding run start step advance after_read after_update read read_on_chain_verified outcome
resolved = refl

resolved_again :
    outcome true fixed.table (last true fixed.table second)
    ≡ some (ok (report true fixed.table (last true fixed.table second)))
unfolding run start step advance after_read after_update read read_on_chain_verified outcome
resolved_again = refl

two_fixed : (report true ngos fixed).fixed ≡ 2
unfolding run start step advance after_read after_update read read_on_chain_verified report
    filter_mismatches
two_fixed = refl

run_ends_example :
    (length schedule ≤ 2 * length ngos)
    × (((r : Result ReconciliationReport) × (outcome true ngos fixed ≡ some r))
        ⊎ ((k : ℕ) × (next : Pool) × (step true read ngos k none fixed ≡ some next)))
run_ends_example = run_ends true read ngos schedule none ran

run_refines_example :
    (report true ngos fixed ≡ pass_in_order true read ngos)
    × (fixed.table ≡ map (correct read) ngos)
run_refines_example = run_refines true read ngos schedule refl ran resolved

reconciled_once_example :
    ((report true fixed.table (last true fixed.table second)).mismatches ≡ [])
    × ((last true fixed.table second).table ≡ fixed.table)
reconciled_once_example =
    reconciled_once true read ngos schedule second refl ran resolved ran_again resolved_again
