-- ===== src/Scripts/Reconcile/Ends.antt =====
-- `mapWithConcurrency` of src/scripts/reconcileVerification.ts comes to an end under every schedule.
use streamgive_backend.Prelude.{
  ℕ, zero, suc, ◌+◌, ◌-◌, ◌*◌, ◌≤◌, min, Bool, false, Option, none, some, List, [], ◌∷◌, ◌++◌, ◌≡◌,
  ◌⊎◌, inl, inr, refl, arith, length, get_elem?, Option-cases, Bool-cases, String, get_elem?-some,
}
use streamgive_backend.Db.{Ngo}
use streamgive_backend.Db.Exec.{Result, ok, err, Thrown, record_not_found}
use streamgive_backend.Scripts.Reconcile.{
  ReconciliationMismatch, Lane, reading, updating, finished, failed, Pool, put_lane, next_lane,
  next_of, settle, run, outcome, report, ReconciliationReport, fail_lane, after_read, after_update,
  advance, step, open_lanes, start, at_rest, all_finished, rpc_concurrency, mismatch_of,
}

-- The awaits that a loop has left at its index.
abbrev pub work : Lane → ℕ
work (reading index ngo) = 2
work (updating index ngo on_chain) = 1
work finished = 0
work (failed index) = 0

abbrev pub total_work : List Lane → ℕ
total_work [] = 0
total_work (lane ∷ lanes) = work lane + total_work lanes

total_work-put :
    (k : ℕ) (lane : Lane) (lanes : List Lane) {old : Lane}
    → get_elem? lanes k ≡ some old
    → total_work (put_lane k lane lanes) + work old ≡ total_work lanes + work lane
total_work-put k lane [] e = absurd (ground arith)
total_work-put zero lane (x ∷ xs) {old} e = ground arith
total_work-put (suc k) lane (x ∷ xs) {old} e =
    ground (arith, total_work-put k lane xs {old = old} e)

total_work-append : (xs ys : List Lane) → total_work (xs ++ ys) ≡ total_work xs + total_work ys
total_work-append [] ys = omega arith
total_work-append (x ∷ xs) ys = omega (arith, total_work-append xs ys)

module _ (fix : Bool) (read : String → Result (Option Bool)) (ngos : List Ngo) where
  -- The awaits left.
  pub left : Pool → ℕ
  left pool = total_work pool.lanes + 2 * (length ngos - pool.next_index)

  next-left :
      (pool : Pool)
      → work (next_lane fix read ngos pool) + 2 * (length ngos - next_of fix read ngos pool)
        ≡ 2 * (length ngos - pool.next_index)
  next-left pool = elim (Option-cases (get_elem? ngos pool.next_index)) [
    | inl e ↦ ground (arith, e)
    | inr (ngo, e) ↦ ground (arith, e, get_elem?-some ngos pool.next_index e)
  ]

  left-settle :
      (k index : ℕ) (result : Option ReconciliationMismatch) (pool : Pool) {old : Lane}
      → get_elem? pool.lanes k ≡ some old
      → left (settle fix read ngos k index result pool) + work old ≡ left pool
  unfolding left
  left-settle k index result pool e =
      omega (arith, next-left pool, total_work-put k (next_lane fix read ngos pool) pool.lanes e)

  left-put :
      (k : ℕ) (lane : Lane) (pool : Pool) {old : Lane}
      → get_elem? pool.lanes k ≡ some old
      → left (record pool { lanes = put_lane k lane pool.lanes }) + work old ≡ left pool + work lane
  unfolding left
  left-put k lane pool e = omega (arith, total_work-put k lane pool.lanes e)

  left-fail :
      (k index : ℕ) (e : Thrown) (pool : Pool) {old : Lane}
      → get_elem? pool.lanes k ≡ some old
      → left (fail_lane fix read ngos k index e pool) + work old ≡ left pool
  unfolding left
  left-fail k index e pool at = omega (arith, total_work-put k (failed index) pool.lanes at)

  left-read :
      (k index : ℕ) (ngo : Ngo) (r : Result (Option Bool)) (pool : Pool)
      → get_elem? pool.lanes k ≡ some (reading index ngo)
      → suc (left (after_read fix read ngos k index ngo r pool)) ≤ left pool
  unfolding after_read
  left-read k index ngo (err e) pool at = omega (arith, left-fail k index e pool at)
  left-read k index ngo (ok none) pool at = omega (arith, left-settle k index none pool at)
  left-read k index ngo (ok (some b)) pool at = ground (
    arith,
    left-settle k index none pool at,
    left-settle k index (some (mismatch_of ngo b)) pool at,
    left-put k (updating index ngo b) pool at,
  )

  left-update :
      (k index : ℕ) (ngo : Ngo) (b : Bool) (fault : Option Thrown) (pool : Pool)
      → get_elem? pool.lanes k ≡ some (updating index ngo b)
      → suc (left (after_update fix read ngos k index ngo b fault pool)) ≤ left pool
  unfolding after_update left
  left-update k index ngo b (some e) pool at = omega (arith, left-fail k index e pool at)
  left-update k index ngo b none pool at = ground (
    arith,
    left-settle k index (some (mismatch_of ngo b)) pool at,
    left-fail k index record_not_found pool at,
  )

  left-advance :
      (k : ℕ) (fault : Option Thrown) (lane : Lane) (pool : Pool) {pool' : Pool}
      → get_elem? pool.lanes k ≡ some lane
      → advance fix read ngos k fault lane pool ≡ some pool'
      → suc (left pool') ≤ left pool
  unfolding advance
  left-advance k fault (reading index ngo) pool at h =
      ground (arith, left-read k index ngo (read ngo.owner_address) pool at)
  left-advance k fault (updating index ngo b) pool at h =
      ground (arith, left-update k index ngo b fault pool at)
  left-advance k fault finished pool at h = absurd (ground arith)
  left-advance k fault (failed index) pool at h = absurd (ground arith)

  left-step :
      (k : ℕ) (fault : Option Thrown) (pool : Pool) {pool' : Pool}
      → step fix read ngos k fault pool ≡ some pool'
      → suc (left pool') ≤ left pool
  unfolding step
  left-step k fault pool h = elim (Option-cases (get_elem? pool.lanes k)) [
    | inl e ↦ absurd (ground (arith, e))
    | inr (lane, e) ↦ left-advance k fault lane pool e (ground (arith, e))
  ]

  left-open : (n : ℕ) (pool : Pool) → left (open_lanes fix read ngos n pool) ≡ left pool
  unfolding left
  left-open zero pool = refl
  left-open (suc n) pool = omega (
    arith,
    left-open n _,
    next-left pool,
    total_work-append pool.lanes (next_lane fix read ngos pool ∷ []),
  )

  left-start : left (start fix read ngos) ≡ 2 * length ngos
  unfolding start left
  left-start = omega (arith, left-open (min rpc_concurrency (length ngos)) _)

  left-run :
      (schedule : List (ℕ × Option Thrown)) (pool : Pool) {pool' : Pool}
      → run fix read ngos schedule pool ≡ some pool'
      → length schedule + left pool' ≤ left pool
  unfolding run
  left-run [] pool {pool'} h = ground arith
  left-run ((k, fault) ∷ schedule) pool {pool'} h =
      elim (Option-cases (step fix read ngos k fault pool)) [
        | inl e ↦ absurd (ground (arith, e))
        | inr (next, e) ↦ omega (
          arith,
          left-step k fault pool e,
          left-run schedule next {pool' = pool'} (ground (arith, e)),
        )
      ]

busy :
    (lanes : List Lane)
    → all_finished lanes ≡ false
    → (k : ℕ) × (lane : Lane) × (get_elem? lanes k ≡ some lane) × (at_rest lane ≡ false)
busy [] h = absurd (ground arith)
busy (lane ∷ lanes) h = elim (Bool-cases (at_rest lane)) [
  | inl rest ↦ let (k, l, e, b) = busy lanes (ground (arith, rest)) in (suc k, l, e, b)
  | inr work ↦ (0, lane, refl, work)
]

module _ (fix : Bool) (read : String → Result (Option Bool)) (ngos : List Ngo) where
  advances :
      (k : ℕ) (fault : Option Thrown) (lane : Lane) (pool : Pool)
      → at_rest lane ≡ false
      → (next : Pool) × (advance fix read ngos k fault lane pool ≡ some next)
  unfolding advance
  advances k fault (reading index ngo) pool b = (_, refl)
  advances k fault (updating index ngo v) pool b = (_, refl)
  advances k fault finished pool b = absurd (ground arith)
  advances k fault (failed index) pool b = absurd (ground arith)

  -- Whatever the order in which the awaits of the loops settle, and whatever the RPC node and the
  -- database answer: at most two awaits for each NGO settle, and at each point the reconciliation has
  -- settled itself, with a report or an error, or some loop can go on, whether its database call fails
  -- or not. So every schedule that goes on while it can comes to a report or an error.
  pub run_ends :
      (schedule : List (ℕ × Option Thrown)) {pool : Pool} (fault : Option Thrown)
      → run fix read ngos schedule (start fix read ngos) ≡ some pool
      → (length schedule ≤ 2 * length ngos)
        × (((r : Result ReconciliationReport) × (outcome fix ngos pool ≡ some r))
            ⊎ ((k : ℕ) × (next : Pool) × (step fix read ngos k fault pool ≡ some next)))
  unfolding outcome step
  run_ends schedule {pool} fault h = (
    omega
        (arith, left-run fix read ngos schedule (start fix read ngos) h, left-start fix read ngos),
    elim (Option-cases pool.rejected) [
      | inr (e, q) ↦ inl (err e, ground (arith, q))
      | inl q ↦ elim (Bool-cases (all_finished pool.lanes)) [
        | inl rest ↦ inl (ok (report fix ngos pool), ground (arith, q, rest))
        | inr work ↦
            let (k, lane, e, b) = busy pool.lanes work in
            let (next, n) = advances k fault lane pool b in inr (k, next, ground (arith, e, n))
      ]
    ],
  )
