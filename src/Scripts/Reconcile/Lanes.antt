-- ===== src/Scripts/Reconcile/Lanes.antt =====
-- One lane of the pool of src/scripts/reconcileVerification.ts replaced.
use mathlib.Core.Option.{some-injective}
use mathlib.Core.Path.{subst}
use streamgive_backend.Prelude.{
  ℕ, zero, suc, Bool, true, false, ◌||◌, some, List, [], ◌∷◌, ◌++◌, ◌≡◌, ◌⊎◌, inl, refl, arith,
  get_elem?, any, All,
}
use streamgive_backend.Scripts.Reconcile.{Lane, put_lane}

module _ (p : Lane → Bool) where
  pub any-put :
      (k : ℕ) (lane : Lane) (lanes : List Lane)
      → any p (put_lane k lane lanes) ≡ true
      → (any p lanes ≡ true) ⊎ (p lane ≡ true)
  any-put k lane [] h = inl h
  any-put zero lane (x ∷ xs) h = ground (arith, h)
  any-put (suc k) lane (x ∷ xs) h = ground (arith, h, any-put k lane xs)

  pub any-put_other :
      (k : ℕ) (lane : Lane) (lanes : List Lane) {old : Lane}
      → get_elem? lanes k ≡ some old
      → p old ≡ false
      → any p lanes ≡ true
      → any p (put_lane k lane lanes) ≡ true
  any-put_other k lane [] e o h = h
  any-put_other zero lane (x ∷ xs) e o h = ground arith
  any-put_other (suc k) lane (x ∷ xs) {old} e o h =
      ground (arith, any-put_other k lane xs {old = old} e o)

  pub any-put_new :
      (k : ℕ) (lane : Lane) (lanes : List Lane) {old : Lane}
      → get_elem? lanes k ≡ some old
      → p lane ≡ true
      → any p (put_lane k lane lanes) ≡ true
  any-put_new k lane [] e h = absurd (ground arith)
  any-put_new zero lane (x ∷ xs) e h = ground arith
  any-put_new (suc k) lane (x ∷ xs) {old} e h =
      ground (arith, any-put_new k lane xs {old = old} e h)

  pub any-append : (xs ys : List Lane) → any p (xs ++ ys) ≡ (any p xs || any p ys)
  any-append [] ys = refl
  any-append (x ∷ xs) ys = ground (arith, any-append xs ys)

pub All-put :
    (P : Lane → Type 0) (k : ℕ) (lane : Lane) (lanes : List Lane)
    → P lane
    → All P lanes
    → All P (put_lane k lane lanes)
All-put P k lane [] h a = a
All-put P zero lane (x ∷ xs) h (px, a) = (h, a)
All-put P (suc k) lane (x ∷ xs) h (px, a) = (px, All-put P k lane xs h a)

pub All-get :
    (P : Lane → Type 0) (k : ℕ) (lanes : List Lane) {lane : Lane}
    → All P lanes
    → get_elem? lanes k ≡ some lane
    → P lane
All-get P k [] a e = absurd (ground arith)
All-get P zero (x ∷ xs) (px, a) e = subst P (some-injective _ _ e) px
All-get P (suc k) (x ∷ xs) (px, a) e = All-get P k xs a e
