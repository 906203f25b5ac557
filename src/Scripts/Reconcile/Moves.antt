-- ===== src/Scripts/Reconcile/Moves.antt =====
-- What becomes of the pool of src/scripts/reconcileVerification.ts when one lane moves.
use mathlib.Core.Option.{some-injective}
use mathlib.Core.Path.{subst}
use streamgive_backend.Prelude.{
  ℕ, ◌<◌, Bool, true, false, ◌||◌, Option, some, List, ◌≡◌, inl, inr, sym, ◌∙◌, arith, get_elem?,
  any, nat_eq, nat_eq_iff, Bool-cases, String,
}
use streamgive_backend.Db.{Ngo}
use streamgive_backend.Db.Exec.{Result, Thrown}
use streamgive_backend.Scripts.Reconcile.{
  ReconciliationMismatch, Lane, updating, failed, Pool, put_lane, next_lane, settle, fail_lane,
}
use streamgive_backend.Scripts.Reconcile.Lanes.{any-put, any-put_other, any-put_new, All-put}
use streamgive_backend.Scripts.Reconcile.Invariant.{
  is_on, is_finished, is_failed, is_set, Fits, Done, Inv, next-Fits, next-on, next-finished,
  next-failed, next-le,
}

module _ (fix : Bool) (read : String → Result (Option Bool)) (ngos : List Ngo) where
  module _ (written : String → Bool) (pool : Pool) (inv : Inv fix read ngos written pool) (k : ℕ)
      (old : Lane) (at : get_elem? pool.lanes k ≡ some old) where
    open inv use {rows, off, fits, filled, cover, ended, lost}

    module _ (index : ℕ) (a : Ngo) (x : Option ReconciliationMismatch)
        (only : (i : ℕ) → is_on i old ≡ true → i ≡ index) (item : get_elem? ngos index ≡ some a)
        (done : Done fix read ngos written a x) where
      abbrev settled : Pool
      settled = settle fix read ngos k index x pool

      old-off : (i : ℕ) → nat_eq i index ≡ false → is_on i old ≡ false
      old-off i n = elim (Bool-cases (is_on i old)) [
        | inl on ↦ absurd (ground (arith, only i on, n, nat_eq_iff i index))
        | inr away ↦ away
      ]

      cover-settle :
          (i : ℕ)
          → i < settled.next_index
          → (is_set (settled.results i) || any (is_on i) settled.lanes) ≡ true
      cover-settle i lt = elim (Bool-cases (nat_eq i index)) [
        | inl here ↦ ground (arith, here)
        | inr there ↦ elim (next-on fix read ngos pool i lt) [
          | inl before ↦ ground (
            arith,
            there,
            cover i before,
            any-put_other (is_on i) k (next_lane fix read ngos pool) pool.lanes at
                (old-off i there),
          )
          | inr on ↦ ground (
            arith,
            there,
            any-put_new (is_on i) k (next_lane fix read ngos pool) pool.lanes at on,
          )
        ]
      ]

      filled-settle :
          (i : ℕ) {y : Option ReconciliationMismatch} {b : Ngo}
          → settled.results i ≡ some y
          → get_elem? ngos i ≡ some b
          → Done fix read ngos written b y
      filled-settle i {y} {b} r e = elim (Bool-cases (nat_eq i index)) [
        | inl here ↦
            let y_eq : x ≡ y = ground (arith, here, r) in
            let b_eq : a ≡ b =
              some-injective _ _ (sym item ∙ rw (sym ((nat_eq_iff i index).0 here)) e) in
            subst (λ z. Done fix read ngos written z y) b_eq
              (subst (Done fix read ngos written a) y_eq done)
        | inr there ↦ filled i (ground (arith, there, r)) e
      ]

      pub Inv-settle : Inv fix read ngos written settled
      Inv-settle = record {
        rows = rows;
        off = off;
        fits = All-put (Fits fix read ngos) k _ pool.lanes (next-Fits fix read ngos pool) fits;
        filled = filled-settle;
        cover = cover-settle;
        ended = λ h. elim (any-put is_finished k _ pool.lanes h) [
          | inl before ↦ omega (arith, next-le fix read ngos pool, ended before)
          | inr now ↦ next-finished fix read ngos pool now
        ];
        lost = λ h. elim (any-put is_failed k _ pool.lanes h) [
          | inl before ↦ lost before
          | inr now ↦ absurd (ground (arith, now, next-failed fix read ngos pool))
        ];
      }

    -- A lane that stays at its index.
    cover-stay :
        (index : ℕ) (lane : Lane)
        → ((i : ℕ) → is_on i old ≡ true → i ≡ index)
        → is_on index lane ≡ true
        → (i : ℕ) → i < pool.next_index
        → (is_set (pool.results i) || any (is_on i) (put_lane k lane pool.lanes)) ≡ true
    cover-stay index lane only on i lt = elim (Bool-cases (is_on i old)) [
      | inl here ↦
          let e : is_on i lane ≡ true = rw (only i here) on in
          ground (arith, any-put_new (is_on i) k lane pool.lanes at e)
      | inr away ↦ ground (arith, cover i lt, any-put_other (is_on i) k lane pool.lanes at away)
    ]

    pub Inv-fail :
        (index : ℕ) (e : Thrown)
        → ((i : ℕ) → is_on i old ≡ true → i ≡ index)
        → is_finished old ≡ false
        → Inv fix read ngos written (fail_lane fix read ngos k index e pool)
    Inv-fail index e only unfinished = record {
      rows = rows;
      off = off;
      fits = All-put (Fits fix read ngos) k (failed index) pool.lanes tt fits;
      filled = filled;
      cover = cover-stay index (failed index) only (ground (arith, nat_eq_iff index index));
      ended = λ h. elim (any-put is_finished k (failed index) pool.lanes h) [
        | inl before ↦ ended before
        | inr now ↦ absurd (ground arith)
      ];
      lost = λ h q. ground (arith, q);
    }

    pub Inv-update :
        (index : ℕ) (a : Ngo) (v : Bool)
        → ((i : ℕ) → is_on i old ≡ true → i ≡ index)
        → (Fits fix read ngos) (updating index a v)
        → Inv fix read ngos written
            (record pool { lanes = put_lane k (updating index a v) pool.lanes })
    Inv-update index a v only fit = record {
      rows = rows;
      off = off;
      fits = All-put (Fits fix read ngos) k (updating index a v) pool.lanes fit fits;
      filled = filled;
      cover = cover-stay index (updating index a v) only (ground (arith, nat_eq_iff index index));
      ended = λ h. elim (any-put is_finished k (updating index a v) pool.lanes h) [
        | inl before ↦ ended before
        | inr now ↦ absurd (ground arith)
      ];
      lost = λ h. elim (any-put is_failed k (updating index a v) pool.lanes h) [
        | inl before ↦ lost before
        | inr now ↦ absurd (ground arith)
      ];
    }
