-- ===== src/Scripts/Reconcile/Starts.antt =====
-- The pool that `mapWithConcurrency` of src/scripts/reconcileVerification.ts starts with, and the number of
-- its loops.
use mathlib.Core.Option.{some-injective}
use mathlib.Core.Path.{subst}
use streamgive_backend.Prelude.{
  ℕ, zero, suc, ◌+◌, min, Bool, false, Option, none, some, List, [], ◌∷◌, ◌≡◌, inl, inr, refl, sym,
  ap, ◌∙◌, arith, length, get_elem?, any, Option-cases, Bool-cases, String, length-append,
  All-append, map,
}
use streamgive_backend.Db.{Ngo}
use streamgive_backend.Db.Exec.{Result, ok, err, Thrown}
use streamgive_backend.Scripts.Reconcile.{
  Lane, reading, updating, finished, failed, Pool, put_lane, next_lane, after_read, after_update,
  advance, step, run, open_lanes, start, rpc_concurrency,
}
use streamgive_backend.Scripts.Reconcile.Rows.{write}
use streamgive_backend.Scripts.Reconcile.Lanes.{any-append}
use streamgive_backend.Scripts.Reconcile.Invariant.{
  is_on, is_finished, is_failed, Fits, Inv, next-Fits, next-on, next-finished, next-failed, next-le,
}

length-put :
    (k : ℕ) (lane : Lane) (lanes : List Lane) → length (put_lane k lane lanes) ≡ length lanes
length-put k lane [] = refl
length-put zero lane (x ∷ xs) = refl
length-put (suc k) lane (x ∷ xs) = ap suc (length-put k lane xs)

abbrev pub nothing_written : String → Bool
nothing_written id = false

pub map-same :
    (f : Ngo → Ngo) (ngos : List Ngo)
    → ((i : ℕ) (a : Ngo) → get_elem? ngos i ≡ some a → f a ≡ a)
    → map f ngos ≡ ngos
map-same f [] h = refl
map-same f (a ∷ rest) h = ground (arith, h 0 a refl, map-same f rest (λ i b e. h (suc i) b e))

module _ (fix : Bool) (read : String → Result (Option Bool)) (ngos : List Ngo) where
  length-read :
      (k index : ℕ) (a : Ngo) (r : Result (Option Bool)) (pool : Pool)
      → length (after_read fix read ngos k index a r pool).lanes ≡ length pool.lanes
  unfolding after_read
  length-read k index a (err e) pool = length-put k _ pool.lanes
  length-read k index a (ok none) pool = length-put k _ pool.lanes
  length-read k index a (ok (some v)) pool = ground (
    arith,
    length-put k (updating index a v) pool.lanes,
    length-put k (next_lane fix read ngos pool) pool.lanes,
  )

  length-update :
      (k index : ℕ) (a : Ngo) (v : Bool) (fault : Option Thrown) (pool : Pool)
      → length (after_update fix read ngos k index a v fault pool).lanes ≡ length pool.lanes
  unfolding after_update
  length-update k index a v (some e) pool = length-put k _ pool.lanes
  length-update k index a v none pool = ground (
    arith,
    length-put k (failed index) pool.lanes,
    length-put k (next_lane fix read ngos pool) pool.lanes,
  )

  length-advance :
      (k : ℕ) (fault : Option Thrown) (lane : Lane) (pool : Pool) {pool' : Pool}
      → advance fix read ngos k fault lane pool ≡ some pool'
      → length pool'.lanes ≡ length pool.lanes
  unfolding advance
  length-advance k fault (reading index a) pool h =
      subst (λ p. length p.lanes ≡ length pool.lanes) (some-injective _ _ h)
        (length-read k index a _ pool)
  length-advance k fault (updating index a v) pool h =
      subst (λ p. length p.lanes ≡ length pool.lanes) (some-injective _ _ h)
        (length-update k index a v fault pool)
  length-advance k fault finished pool h = absurd (ground arith)
  length-advance k fault (failed index) pool h = absurd (ground arith)

  pub length-run :
      (schedule : List (ℕ × Option Thrown)) (pool : Pool) {pool' : Pool}
      → run fix read ngos schedule pool ≡ some pool'
      → length pool'.lanes ≡ length pool.lanes
  unfolding run step
  length-run [] pool h = ground (arith, h)
  length-run ((k, fault) ∷ schedule) pool {pool'} h =
      elim (Option-cases (step fix read ngos k fault pool)) [
        | inl e ↦ absurd (ground (arith, e))
        | inr (next, e) ↦ elim (Option-cases (get_elem? pool.lanes k)) [
          | inl stuck ↦ absurd (ground (arith, stuck, e))
          | inr (lane, at) ↦
              length-run schedule next {pool' = pool'} (ground (arith, e))
              ∙ length-advance k fault lane pool {pool' = next} (ground (arith, at, e))
        ]
      ]

  length-open :
      (n : ℕ) (pool : Pool) → length (open_lanes fix read ngos n pool).lanes ≡ n + length pool.lanes
  length-open zero pool = omega arith
  length-open (suc n) pool =
      omega (arith, length-open n _, length-append pool.lanes (next_lane fix read ngos pool ∷ []))

  pub length-start : length (start fix read ngos).lanes ≡ min rpc_concurrency (length ngos)
  unfolding start
  length-start = omega (arith, length-open (min rpc_concurrency (length ngos)) _)

  Inv-open :
      (n : ℕ) (pool : Pool)
      → Inv fix read ngos nothing_written pool
      → Inv fix read ngos nothing_written (open_lanes fix read ngos n pool)
  Inv-open zero pool inv = inv
  Inv-open (suc n) pool inv = Inv-open n _ (record {
    rows = inv.rows;
    off = inv.off;
    fits = All-append (Fits fix read ngos) pool.lanes _ inv.fits (next-Fits fix read ngos pool, tt);
    filled = inv.filled;
    cover = λ i lt. elim (next-on fix read ngos pool i lt) [
      | inl before ↦ ground (
        arith,
        inv.cover i before,
        any-append (is_on i) pool.lanes (next_lane fix read ngos pool ∷ []),
      )
      | inr on ↦
          ground (arith, on, any-append (is_on i) pool.lanes (next_lane fix read ngos pool ∷ []))
    ];
    ended = λ h. elim (Bool-cases (any is_finished pool.lanes)) [
      | inl before ↦ omega (arith, next-le fix read ngos pool, inv.ended before)
      | inr not_before ↦ next-finished fix read ngos pool (
          ground (
            arith,
            h,
            not_before,
            any-append is_finished pool.lanes (next_lane fix read ngos pool ∷ []),
          ))
    ];
    lost = λ h. elim (Bool-cases (any is_failed pool.lanes)) [
      | inl before ↦ inv.lost before
      | inr not_before ↦ absurd (
          ground (
            arith,
            h,
            not_before,
            next-failed fix read ngos pool,
            any-append is_failed pool.lanes (next_lane fix read ngos pool ∷ []),
          ))
    ];
  })

  pub Inv-start : Inv fix read ngos nothing_written (start fix read ngos)
  unfolding start
  Inv-start =
      Inv-open (min rpc_concurrency (length ngos))
        (record { next_index = 0; lanes = []; results = λ i. none; rejected = none; table = ngos })
        (record {
          rows = sym (map-same (write read nothing_written) ngos (λ i a e. refl));
          off = λ id h. refl;
          fits = tt;
          filled = λ i r e. absurd (ground arith);
          cover = λ i lt. absurd (omega arith);
          ended = λ h. absurd (ground arith);
          lost = λ h. absurd (ground arith);
        })
