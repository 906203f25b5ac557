-- ===== src/Indexer/Worker/Backoff.antt =====
-- `backoffDelayMs`: the delay doubles from the poll interval up to the cap.
use native.Mathlib.Nat.{pow-suc}
use streamgive_backend.Prelude.{
  ℕ, zero, suc, ◌*◌, ◌^◌, ◌≤◌, ◌≡◌, refl, ap, min, arith, some, false, ◌&&◌, nat_eq, leb,
}
use streamgive_backend.Indexer.Worker.{backoff_delay_ms, backoff_max_ms}

one-le-pow : (n : ℕ) → 1 ≤ 2 ^ n
one-le-pow zero = omega arith
one-le-pow (suc n) = rw (pow-suc) (omega (arith, one-le-pow n))

never_nan : (interval n : ℕ) → 1 ≤ interval → (nat_eq interval 0 && leb 1024 n) ≡ false
never_nan interval n h = ground (arith, h)

-- With an interval of at least a millisecond no delay is NaN: without a failure it is the interval; the
-- first failure waits for the interval, capped; each later one waits for twice the delay before it,
-- capped. A delay after a failure is never above the cap, and never below the first one.
pub backoff_delay_ms_doubles :
    (interval n : ℕ)
    → 1 ≤ interval
    → (delay : ℕ) × (backoff_delay_ms interval 0 ≡ some interval)
      × (backoff_delay_ms interval 1 ≡ some (min interval backoff_max_ms))
      × (backoff_delay_ms interval (suc n) ≡ some delay)
      × (backoff_delay_ms interval (suc (suc n)) ≡ some (min (2 * delay) backoff_max_ms))
      × (delay ≤ backoff_max_ms)
      × (min interval backoff_max_ms ≤ delay)
unfolding backoff_delay_ms
backoff_delay_ms_doubles interval n h =
    let p = ap (λ (x : ℕ). interval * x) (pow-suc 2 n) in
    let delay = min (interval * 2 ^ n) backoff_max_ms in
    let first : min (interval * 2 ^ 0) backoff_max_ms ≡ min interval backoff_max_ms = omega arith in
    let doubled : min (interval * 2 ^ suc n) backoff_max_ms ≡ min (2 * delay) backoff_max_ms =
      omega (arith, p) in
    (
      delay,
      refl,
      rw (never_nan interval 0 h) (ap some first),
      rw (never_nan interval n h) refl,
      rw (never_nan interval (suc n) h) (ap some doubled),
      omega arith,
      grind (arith, one-le-pow n),
    )
