-- ===== src/Scripts/Reconcile/Invariant.antt =====
-- What the loops of src/scripts/reconcileVerification.ts keep true of their pool.
use streamgive_backend.Prelude.{
  ℕ, ◌≤◌, ◌<◌, Bool, true, false, ◌||◌, Option, none, some, List, ◌≡◌, ◌≢◌, ◌⊎◌, inl, inr, arith,
  length, get_elem?, any, nat_eq, nat_eq_iff, if◌then◌else◌, Option-cases, Bool-cases, String,
  get_elem?-none, map, All,
}
use streamgive_backend.Db.{Ngo}
use streamgive_backend.Db.Exec.{Result, ok}
use streamgive_backend.Scripts.Reconcile.{
  ReconciliationMismatch, Lane, reading, updating, finished, failed, Pool, next_lane, next_of,
  same_flag,
}
use streamgive_backend.Scripts.Reconcile.Spec.{compare_ngo, correct}
use streamgive_backend.Scripts.Reconcile.Rows.{write}

abbrev pub is_on : ℕ → Lane → Bool
is_on i (reading index ngo) = nat_eq i index
is_on i (updating index ngo v) = nat_eq i index
is_on i finished = false
is_on i (failed index) = nat_eq i index

abbrev pub is_finished : Lane → Bool
is_finished finished = true
is_finished _ = false

abbrev pub is_failed : Lane → Bool
is_failed (failed index) = true
is_failed _ = false

abbrev pub is_set : Option (Option ReconciliationMismatch) → Bool
is_set none = false
is_set (some result) = true

module _ (fix : Bool) (read : String → Result (Option Bool)) (ngos : List Ngo) where
  abbrev pub Fits : Lane → Type 0
  Fits (reading index a) = get_elem? ngos index ≡ some a
  Fits (updating index a v) =
      (get_elem? ngos index ≡ some a)
      × (read a.owner_address ≡ ok (some v))
      × (same_flag v a.verified ≡ false)
      × (fix ≡ true)
  Fits finished = Unit
  Fits (failed index) = Unit

  -- A result that has been written is that of the pass in order, and its row is what it is to be.
  pub record Done (written : String → Bool) (a : Ngo) (x : Option ReconciliationMismatch)
      : Type 0 where
    pub result : x ≡ compare_ngo read a
    pub row : write read written a ≡ (if fix then correct read a else a)

  pub record Inv (written : String → Bool) (pool : Pool) : Type 0 where
    pub rows : pool.table ≡ map (write read written) ngos
    pub off : (id : String) → fix ≡ false → written id ≡ false
    pub fits : All Fits pool.lanes
    pub filled :
        (i : ℕ) {x : Option ReconciliationMismatch} {a : Ngo}
        → pool.results i ≡ some x
        → get_elem? ngos i ≡ some a
        → Done written a x
    pub cover :
        (i : ℕ) → i < pool.next_index → (is_set (pool.results i) || any (is_on i) pool.lanes) ≡ true
    pub ended : any is_finished pool.lanes ≡ true → length ngos ≤ pool.next_index
    pub lost : any is_failed pool.lanes ≡ true → pool.rejected ≢ none

  pub next-Fits : (pool : Pool) → Fits (next_lane fix read ngos pool)
  next-Fits pool = elim (Option-cases (get_elem? ngos pool.next_index)) [
    | inl e ↦ rw (e, Fits) tt
    | inr (a, e) ↦ rw (e, Fits) e
  ]

  -- What the next lane covers, and what it says of the end.
  pub next-on :
      (pool : Pool) (i : ℕ)
      → i < next_of fix read ngos pool
      → (i < pool.next_index) ⊎ (is_on i (next_lane fix read ngos pool) ≡ true)
  next-on pool i lt = elim (Option-cases (get_elem? ngos pool.next_index)) [
    | inl e ↦ inl (ground (arith, e, lt))
    | inr (a, e) ↦ elim (Bool-cases (nat_eq i pool.next_index)) [
      | inl same ↦ inr (ground (arith, e, same))
      | inr differ ↦ inl (ground (arith, e, lt, differ, nat_eq_iff i pool.next_index))
    ]
  ]

  pub next-finished :
      (pool : Pool)
      → is_finished (next_lane fix read ngos pool) ≡ true
      → length ngos ≤ next_of fix read ngos pool
  next-finished pool h = elim (Option-cases (get_elem? ngos pool.next_index)) [
    | inl e ↦ ground (arith, e, get_elem?-none ngos pool.next_index e)
    | inr (a, e) ↦ absurd (ground (arith, e, h))
  ]

  pub next-failed : (pool : Pool) → is_failed (next_lane fix read ngos pool) ≡ false
  next-failed pool = elim (Option-cases (get_elem? ngos pool.next_index)) [
    | inl e ↦ ground (arith, e)
    | inr (a, e) ↦ ground (arith, e)
  ]

  pub next-le : (pool : Pool) → pool.next_index ≤ next_of fix read ngos pool
  next-le pool = elim (Option-cases (get_elem? ngos pool.next_index)) [
    | inl e ↦ ground (arith, e)
    | inr (a, e) ↦ ground (arith, e)
  ]
