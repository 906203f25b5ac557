-- ===== src/Db/Calm.antt =====
-- Where no database call fails: what a call, a sequence and a transaction do.
use streamgive_backend.Prelude.{ℕ, ◌≡◌, refl, ap, ◌∙◌, none, some}
use streamgive_backend.Db.{Database}
use streamgive_backend.Db.Exec.{
  Result, ok, err, Env, Exec, World, prisma, transaction, tick, rollback, ◌>>=◌,
}

-- What follows an action that returns.
pub bind-ok :
    {A B : Type 0} (m : Exec A) (f : A → Exec B) (a : A) (w v : World)
    → m w ≡ (ok a, v)
    → (m >>= f) w ≡ f a v
bind-ok {A} {B} m f a w v h =
    ap {A = Result A × World}
      (λ r. elim r.0 as (λ _. Result B × World) [ ok a ↦ f a r.1 | err e ↦ (err e, r.1) ]) h

module _ (env : Env) (calm : (n : ℕ) → env.fault n ≡ none) {A : Type 0} where
  pub prisma-calm :
      (f : Database → Result A × Database) (w : World)
      → prisma env f w ≡ ((f w.database).0, record (tick w) { database = (f w.database).1 })
  unfolding prisma
  prisma-calm f w = rw (calm w.calls, prisma) refl

  pub prisma-answers :
      (f : Database → Result A × Database) (a : A) (db : Database) (w : World)
      → f w.database ≡ (ok a, db)
      → prisma env f w ≡ (ok a, record (tick w) { database = db })
  prisma-answers f a db w h =
      prisma-calm f w
      ∙ ap {A = Result A × Database} (λ r. (r.0, record (tick w) { database = r.1 })) h

  pub transaction-calm :
      (body : Exec A) (a : A) (w v : World)
      → body w ≡ (ok a, v)
      → transaction env body w ≡ (ok a, tick v)
  unfolding transaction
  transaction-calm body a w v h =
      ap {A = Result A × World}
        (λ r. elim r.0 as (λ _. Result A × World) [
          | err e ↦ (err e, rollback w r.1)
          | ok a ↦ elim (env.fault r.1.calls) as (λ _. Result A × World) [
            | some e ↦ (err e, rollback w (tick r.1))
            | none ↦ (ok a, tick r.1)
          ]
        ])
        h
      ∙ ap
          (λ o. elim o as (λ _. Result A × World) [
            | some e ↦ (err e, rollback w (tick v))
            | none ↦ (ok a, tick v)
          ])
          (calm v.calls)
