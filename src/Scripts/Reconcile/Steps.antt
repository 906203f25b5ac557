-- ===== src/Scripts/Reconcile/Steps.antt =====
-- Every schedule of the loops of src/scripts/reconcileVerification.ts keeps the invariant.
use mathlib.Core.Option.{some-injective}
use mathlib.Core.Path.{subst}
use streamgive_backend.Prelude.{
  ℕ, Bool, true, false, Option, none, some, List, [], ◌∷◌, ◌≡◌, inl, inr, refl, sym, arith,
  get_elem?, any, update_where, nat_eq_iff, if◌then◌else◌, Option-cases, Bool-cases, String,
  eq_refl,
}
use streamgive_backend.Db.{Ngo}
use streamgive_backend.Db.Exec.{Result, ok, err, Thrown, record_not_found}
use streamgive_backend.Scripts.Reconcile.{
  ReconciliationMismatch, Lane, reading, updating, finished, failed, Pool, put_lane, settle,
  after_read, after_update, advance, step, run, mismatch_of, has_id, set_verified, same_flag,
}
use streamgive_backend.Scripts.Reconcile.Spec.{compare_ngo, correct}
use streamgive_backend.Scripts.Reconcile.Rows.{
  unique_ids, unique_ids-All, write, mark, update-written,
}
use streamgive_backend.Scripts.Reconcile.Lanes.{All-get}
use streamgive_backend.Scripts.Reconcile.Invariant.{Fits, Done, Inv}
use streamgive_backend.Scripts.Reconcile.Moves.{Inv-settle, Inv-fail, Inv-update}

module _ (fix : Bool) (read : String → Result (Option Bool)) (ngos : List Ngo) where
  row-mark :
      (written : String → Bool) (id : String) (b : Ngo)
      → fix ≡ true
      → write read written b ≡ (if fix then correct read b else b)
      → write read (mark id written) b ≡ (if fix then correct read b else b)
  row-mark written id b fixing h = elim (Bool-cases (mark id written b.id)) [
    | inl marked ↦ ground (arith, fixing, marked)
    | inr unmarked ↦ ground (arith, fixing, h, unmarked)
  ]

  Inv-mark :
      (written : String → Bool) (pool : Pool) (index : ℕ) (a : Ngo) (v : Bool)
      → unique_ids ngos ≡ true
      → Inv fix read ngos written pool
      → (Fits fix read ngos) (updating index a v)
      → Inv fix read ngos
          (mark a.id written)
          (record pool { table = update_where (has_id a.id) (set_verified v) pool.table })
  Inv-mark written pool index a v unique inv (item, answered, differs, fixing) = record {
    rows = rw inv.rows (
        update-written read a v answered differs written ngos
          (unique_ids-All ngos index a unique item));
    off = λ id off. absurd (ground (arith, off, fixing));
    fits = inv.fits;
    filled = λ i {x} {a = b} r e.
        let d = inv.filled i r e in
        record { result = d.result; row = row-mark written a.id b fixing d.row };
    cover = inv.cover;
    ended = inv.ended;
    lost = inv.lost;
  }

  Done-mark :
      (written : String → Bool) (a : Ngo) (v : Bool)
      → read a.owner_address ≡ ok (some v)
      → same_flag v a.verified ≡ false
      → fix ≡ true
      → Done fix read ngos (mark a.id written) a (some (mismatch_of a v))
  Done-mark written a v answered differs fixing = record {
    result = ground (arith, answered, differs);
    row = ground (arith, fixing, eq_refl a.id);
  }

  Done-same :
      (written : String → Bool) (a : Ngo)
      → compare_ngo read a ≡ none
      → Done fix read ngos written a none
  Done-same written a same = record { result = sym same; row = ground (arith, same) }

  Done-unfixed :
      (written : String → Bool) (a : Ngo) {x : Option ReconciliationMismatch}
      → fix ≡ false
      → written a.id ≡ false
      → compare_ngo read a ≡ x
      → Done fix read ngos written a x
  Done-unfixed written a unfixed off e = record {
    result = sym e;
    row = ground (arith, unfixed, off);
  }

  module _ (unique : unique_ids ngos ≡ true) where
    module _ (written : String → Bool) (pool : Pool) (k : ℕ)
        (inv : Inv fix read ngos written pool) where
      Inv-read :
          (index : ℕ) (a : Ngo) (r : Result (Option Bool))
          → get_elem? pool.lanes k ≡ some (reading index a)
          → read a.owner_address ≡ r
          → Inv fix read ngos written (after_read fix read ngos k index a r pool)
      unfolding after_read
      Inv-read index a (err e) at answered =
          Inv-fail fix read ngos written pool inv k _ at index e (λ i. (nat_eq_iff i index).0) refl
      Inv-read index a (ok none) at answered =
          Inv-settle fix read ngos written pool inv k _ at index a none
            (λ i. (nat_eq_iff i index).0) (All-get (Fits fix read ngos) k pool.lanes inv.fits at)
            (Done-same written a (ground (arith, answered)))
      Inv-read index a (ok (some v)) at answered = elim (Bool-cases (same_flag v a.verified)) [
        | inl same ↦ rw same (
            Inv-settle fix read ngos written pool inv k _ at index a none
              (λ i. (nat_eq_iff i index).0) (All-get (Fits fix read ngos) k pool.lanes inv.fits at)
              (Done-same written a (ground (arith, answered, same))))
        | inr differs ↦ elim (Bool-cases fix) [
          | inl fixing ↦
              let e : after_read fix read ngos k index a (ok (some v)) pool
                  ≡ record pool { lanes = put_lane k (updating index a v) pool.lanes } =
                ground (arith, differs, fixing) in
              subst (Inv fix read ngos written) (sym e) (
                Inv-update fix read ngos written pool inv k _ at index a v
                  (λ i. (nat_eq_iff i index).0)
                  (
                    All-get (Fits fix read ngos) k pool.lanes inv.fits at,
                    answered,
                    differs,
                    fixing,
                  ))
          | inr unfixed ↦
              let e : after_read fix read ngos k index a (ok (some v)) pool
                  ≡ settle fix read ngos k index (some (mismatch_of a v)) pool =
                ground (arith, differs, unfixed) in
              subst (Inv fix read ngos written) (sym e) (
                Inv-settle fix read ngos written pool inv k _ at index a _
                  (λ i. (nat_eq_iff i index).0)
                  (All-get (Fits fix read ngos) k pool.lanes inv.fits at)
                  (Done-unfixed written a unfixed (inv.off a.id unfixed)
                    (ground (arith, answered, differs))))
        ]
      ]

      Inv-updated :
          (index : ℕ) (a : Ngo) (v : Bool) (fault : Option Thrown)
          → get_elem? pool.lanes k ≡ some (updating index a v)
          → (later : String → Bool) × Inv fix read ngos later
              (after_update fix read ngos k index a v fault pool)
      unfolding after_update
      Inv-updated index a v (some e) at = (
        written,
        Inv-fail fix read ngos written pool inv k _ at index e (λ i. (nat_eq_iff i index).0) refl,
      )
      Inv-updated index a v none at =
          let fit = All-get (Fits fix read ngos) k pool.lanes inv.fits at in
          elim (Bool-cases (any (has_id a.id) pool.table)) [
            | inl there ↦ (
              mark a.id written,
              rw there (
                  Inv-settle fix read ngos (mark a.id written) _
                    (Inv-mark written pool index a v unique inv fit) k _ at index a _
                    (λ i. (nat_eq_iff i index).0) fit.0 (Done-mark written a v fit.1 fit.2 fit.3)),
            )
            | inr missing ↦ (
              written,
              rw missing (
                  Inv-fail fix read ngos written pool inv k _ at index record_not_found
                    (λ i. (nat_eq_iff i index).0) refl),
            )
          ]

      Inv-advance :
          (fault : Option Thrown) (lane : Lane) {pool' : Pool}
          → get_elem? pool.lanes k ≡ some lane
          → advance fix read ngos k fault lane pool ≡ some pool'
          → (later : String → Bool) × Inv fix read ngos later pool'
      unfolding advance
      Inv-advance fault (reading index a) at h = (
        written,
        subst (Inv fix read ngos written) (some-injective _ _ h) (Inv-read index a _ at refl),
      )
      Inv-advance fault (updating index a v) at h =
          let (later, kept) = Inv-updated index a v fault at in
          (later, subst (Inv fix read ngos later) (some-injective _ _ h) kept)
      Inv-advance fault finished at h = absurd (ground arith)
      Inv-advance fault (failed index) at h = absurd (ground arith)

    pub Inv-run :
        (schedule : List (ℕ × Option Thrown)) (written : String → Bool) (pool : Pool) {pool' : Pool}
        → Inv fix read ngos written pool
        → run fix read ngos schedule pool ≡ some pool'
        → (later : String → Bool) × Inv fix read ngos later pool'
    unfolding run step
    Inv-run [] written pool inv h =
        (written, subst (Inv fix read ngos written) (some-injective _ _ h) inv)
    Inv-run ((k, fault) ∷ schedule) written pool {pool'} inv h =
        elim (Option-cases (step fix read ngos k fault pool)) [
          | inl e ↦ absurd (ground (arith, e))
          | inr (next, e) ↦ elim (Option-cases (get_elem? pool.lanes k)) [
            | inl stuck ↦ absurd (ground (arith, stuck, e))
            | inr (lane, at) ↦
                let goes : run fix read ngos schedule next ≡ some pool' = ground (arith, e) in
                let (later, kept) =
                  Inv-advance written pool k inv fault lane at (ground (arith, at, e)) in
                Inv-run schedule later next kept goes
          ]
        ]
