-- ===== src/Scripts/Reconcile/Again.antt =====
-- A second reconciliation of src/scripts/reconcileVerification.ts, after one that was to fix.
use streamgive_backend.Prelude.{
  ℕ, Bool, true, Option, none, some, List, [], ◌∷◌, ◌≡◌, inl, inr, refl, sym, ap, ◌∙◌, arith, any,
  Option-cases, Bool-cases, String, map,
}
use streamgive_backend.Db.{Ngo}
use streamgive_backend.Db.Exec.{Result, Result-cases, ok, Thrown}
use streamgive_backend.Scripts.Reconcile.{ReconciliationReport, Pool, run, start, has_id, outcome}
use streamgive_backend.Scripts.Reconcile.Spec.{compare_ngo, correct, mismatches_of}
use streamgive_backend.Scripts.Reconcile.Rows.{unique_ids}
use streamgive_backend.Scripts.Reconcile.Refines.{run_refines}

-- The row that a fix leaves is no mismatch any more.
compare_ngo-correct :
    (read : String → Result (Option Bool)) (a : Ngo) → compare_ngo read (correct read a) ≡ none
compare_ngo-correct read a = elim (Result-cases (read a.owner_address)) [
  | inr (e, q) ↦ ground (arith, q)
  | inl (none, q) ↦ ground (arith, q)
  | inl (some v, q) ↦ ground (arith, q)
]

mismatches_of-correct :
    (read : String → Result (Option Bool)) (ngos : List Ngo)
    → mismatches_of read (map (correct read) ngos) ≡ []
mismatches_of-correct read [] = refl
mismatches_of-correct read (a ∷ rest) =
    ground (arith, compare_ngo-correct read a, mismatches_of-correct read rest)

correct-id : (read : String → Result (Option Bool)) (a : Ngo) → (correct read a).id ≡ a.id
correct-id read a = elim (Option-cases (compare_ngo read a)) [
  | inl e ↦ ground (arith, e)
  | inr (m, e) ↦ ground (arith, e)
]

any-correct :
    (read : String → Result (Option Bool)) (id : String) (ngos : List Ngo)
    → any (has_id id) (map (correct read) ngos) ≡ any (has_id id) ngos
any-correct read id [] = refl
any-correct read id (a ∷ rest) = ground (arith, correct-id read a, any-correct read id rest)

map-correct :
    (read : String → Result (Option Bool)) (ngos : List Ngo)
    → map (correct read) (map (correct read) ngos) ≡ map (correct read) ngos
map-correct read [] = refl
map-correct read (a ∷ rest) = ground (arith, compare_ngo-correct read a, map-correct read rest)

unique_ids-correct :
    (read : String → Result (Option Bool)) (ngos : List Ngo)
    → unique_ids (map (correct read) ngos) ≡ unique_ids ngos
unique_ids-correct read [] = refl
unique_ids-correct read (a ∷ rest) =
    ground (arith, correct-id read a, any-correct read a.id rest, unique_ids-correct read rest)

-- The ids of the NGOs being distinct and the contract's statuses staying as they are: after a
-- reconciliation that is to fix has resolved, another one that resolves, under any schedule, reports no
-- mismatch and leaves the table as it is.
pub reconciled_once :
    (fix : Bool) (read : String → Result (Option Bool)) (ngos : List Ngo)
    (schedule schedule' : List (ℕ × Option Thrown)) {pool pool' : Pool}
    {r r' : ReconciliationReport}
    → unique_ids ngos ≡ true
    → run true read ngos schedule (start true read ngos) ≡ some pool
    → outcome true ngos pool ≡ some (ok r)
    → run fix read pool.table schedule' (start fix read pool.table) ≡ some pool'
    → outcome fix pool.table pool' ≡ some (ok r')
    → (r'.mismatches ≡ []) × (pool'.table ≡ pool.table)
reconciled_once fix read ngos schedule schedule' {pool} {pool'} {r} {r'} unique h o h' o' =
    let (_, fixed) = run_refines true read ngos schedule unique h o in
    let still : unique_ids pool.table ≡ true =
      ap unique_ids fixed ∙ unique_ids-correct read ngos ∙ unique in
    let (same_report, kept) = run_refines fix read pool.table schedule' still h' o' in
    let none_left : mismatches_of read pool.table ≡ [] =
      ap (mismatches_of read) fixed ∙ mismatches_of-correct read ngos in
    let stays : map (correct read) pool.table ≡ pool.table =
      ap (map (correct read)) fixed ∙ map-correct read ngos ∙ sym fixed in
    (
      ap (λ x. x.mismatches) same_report ∙ none_left,
      elim (Bool-cases fix) [
        | inl fixing ↦ ground (arith, kept, stays, fixing)
        | inr unfixed ↦ ground (arith, kept, unfixed)
      ],
    )
