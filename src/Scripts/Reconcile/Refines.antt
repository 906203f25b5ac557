-- ===== src/Scripts/Reconcile/Refines.antt =====
-- The loops of src/scripts/reconcileVerification.ts against one pass over the NGOs in order.
use streamgive_backend.Prelude.{
  ℕ, suc, ◌≤◌, ◌<◌, min, Bool, true, false, Option, none, some, List, [], ◌∷◌, ◌≡◌, inl, inr, refl,
  ap, ◌∙◌, arith, length, get_elem?, any, if◌then◌else◌, Option-cases, Bool-cases, String,
  get_elem?-some, map,
}
use streamgive_backend.Db.{Ngo}
use streamgive_backend.Db.Exec.{Result, ok, Thrown}
use streamgive_backend.Scripts.Reconcile.{
  ReconciliationMismatch, ReconciliationReport, Lane, reading, updating, finished, failed, Pool,
  run, start, all_finished, rpc_concurrency, filter_mismatches, report, outcome,
}
use streamgive_backend.Scripts.Reconcile.Spec.{correct, mismatches_of, filter_mismatches-of}
use streamgive_backend.Scripts.Reconcile.Rows.{unique_ids, write}
use streamgive_backend.Scripts.Reconcile.Invariant.{is_on, is_finished, is_failed, Done, Inv}
use streamgive_backend.Scripts.Reconcile.Steps.{Inv-run}
use streamgive_backend.Scripts.Reconcile.Starts.{
  nothing_written, map-same, length-run, length-start, Inv-start,
}

map-agree :
    (f g : Ngo → Ngo) (ngos : List Ngo)
    → ((i : ℕ) (a : Ngo) → get_elem? ngos i ≡ some a → f a ≡ g a)
    → map f ngos ≡ map g ngos
map-agree f g [] h = refl
map-agree f g (a ∷ rest) h = ground (arith, h 0 a refl, map-agree f g rest (λ i b e. h (suc i) b e))

-- A pool whose loops have all come to their end without an error has every result.
no-lane :
    (i : ℕ) (lanes : List Lane)
    → all_finished lanes ≡ true
    → any is_failed lanes ≡ false
    → any (is_on i) lanes ≡ false
no-lane i [] f n = refl
no-lane i (finished ∷ lanes) f n = no-lane i lanes f n
no-lane i (failed index ∷ lanes) f n = absurd (ground arith)
no-lane i (reading index a ∷ lanes) f n = absurd (ground arith)
no-lane i (updating index a v ∷ lanes) f n = absurd (ground arith)

some-finished :
    (lanes : List Lane)
    → 0 < length lanes
    → all_finished lanes ≡ true
    → any is_failed lanes ≡ false
    → any is_finished lanes ≡ true
some-finished [] p f n = absurd (omega arith)
some-finished (finished ∷ lanes) p f n = refl
some-finished (failed index ∷ lanes) p f n = absurd (ground arith)
some-finished (reading index a ∷ lanes) p f n = absurd (ground arith)
some-finished (updating index a v ∷ lanes) p f n = absurd (ground arith)

module _ (fix : Bool) (read : String → Result (Option Bool)) (ngos : List Ngo) where
  module _ {written : String → Bool} {pool : Pool} (inv : Inv fix read ngos written pool)
      (lanes : length pool.lanes ≡ min rpc_concurrency (length ngos))
      (unbroken : pool.rejected ≡ none) (over : all_finished pool.lanes ≡ true) where
    open inv use {rows, filled, cover, ended, lost}

    none_failed : any is_failed pool.lanes ≡ false
    none_failed = elim (Bool-cases (any is_failed pool.lanes)) [
      | inl broken ↦ absurd (lost broken unbroken)
      | inr fine ↦ fine
    ]

    result_at :
        (i : ℕ) (a : Ngo)
        → get_elem? ngos i ≡ some a
        → (x : Option ReconciliationMismatch) × (pool.results i ≡ some x)
          × Done fix read ngos written a x
    result_at i a e =
        let lt : i < length ngos = get_elem?-some ngos i e in
        let end : length ngos ≤ pool.next_index =
          ended (some-finished pool.lanes (omega (arith, lt, lanes)) over none_failed) in
        elim (Option-cases (pool.results i)) [
          | inl hole ↦ absurd (
              ground (
                arith,
                hole,
                cover i (omega (arith, lt, end)),
                no-lane i pool.lanes over none_failed,
              ))
          | inr (x, r) ↦ (x, r, filled i r e)
        ]

    results-of : filter_mismatches pool.results 0 (length ngos) ≡ mismatches_of read ngos
    results-of = filter_mismatches-of read pool.results 0 ngos (λ i j a j_eq e.
        let (x, r, d) = result_at i a e in
        let here : j ≡ i = omega (arith, j_eq) in rw here (r ∙ ap some d.result))

    table-of : pool.table ≡ (if fix then map (correct read) ngos else ngos)
    table-of = elim (Bool-cases fix) [
      | inl fixing ↦ rw fixing (
          rows
          ∙ map-agree (write read written) (correct read) ngos
              (λ i a e. ground (arith, fixing, (result_at i a e).2.row)))
      | inr unfixed ↦ rw unfixed (
          rows
          ∙ map-same (write read written) ngos
              (λ i a e. ground (arith, unfixed, (result_at i a e).2.row)))
    ]

  abbrev pub pass_in_order : ReconciliationReport
  pass_in_order = record {
    checked = length ngos;
    mismatches = mismatches_of read ngos;
    fixed = (if fix then length (mismatches_of read ngos) else 0);
  }

  -- The ids of the NGOs being distinct, whatever the order in which the awaits of the loops settle: when
  -- the reconciliation resolves, its report is that of one pass over the NGOs in their order, and the
  -- table holds the rows that it read, in their order, each with the on-chain status if it is to fix and
  -- the contract has one, and as it was otherwise.
  pub run_refines :
      (schedule : List (ℕ × Option Thrown)) {pool : Pool} {r : ReconciliationReport}
      → unique_ids ngos ≡ true
      → run fix read ngos schedule (start fix read ngos) ≡ some pool
      → outcome fix ngos pool ≡ some (ok r)
      → (r ≡ pass_in_order) × (pool.table ≡ (if fix then map (correct read) ngos else ngos))
  unfolding outcome report
  run_refines schedule {pool} {r} unique h o = elim (Option-cases pool.rejected) [
    | inr (e, broken) ↦ absurd (ground (arith, broken, o))
    | inl unbroken ↦ elim (Bool-cases (all_finished pool.lanes)) [
      | inr busy ↦ absurd (ground (arith, unbroken, busy, o))
      | inl over ↦
          let (written, inv) =
            Inv-run fix read ngos unique schedule nothing_written (start fix read ngos)
              (Inv-start fix read ngos) h in
          let count =
            length-run fix read ngos schedule (start fix read ngos) h
            ∙ length-start fix read ngos in
          (
            ground (arith, unbroken, over, o, results-of inv count unbroken over),
            table-of inv count unbroken over,
          )
    ]
  ]
