-- ===== src/Db/Total.antt =====
-- Actions that never throw, with one rule for each way to build one.
use streamgive_backend.Prelude.{
  ◌≡◌, refl, Bool, true, false, Option, none, some, if◌then◌else◌, arith,
}
use streamgive_backend.Db.Exec.{
  Thrown, Result, ok, err, World, Env, Exec, pure, gets, modify, ◌>>=◌, catch, clock, random_uuid,
  given,
}
use streamgive_backend.Db.Split.{bind-with, catch-with}

abbrev pub Returned : {A : Type 0} → Result A × World → Type 0
Returned {A} r = (a : A) × (r.0 ≡ ok a)

pub record Total {A : Type 0} (m : Exec A) : Type 0 where
  pub returns : (w : World) → Returned (m w)

module _ {A : Type 0} where
  pub Total-pure : (a : A) → Total (pure a)
  Total-pure a = record { returns = λ w. (a, refl) }

  pub Total-gets : (f : World → A) → Total (gets f)
  Total-gets f = record { returns = λ w. (f w, refl) }

  -- What is thrown is caught, so that only the handler counts.
  pub Total-catch :
      (m : Exec A) (h : Thrown → Exec A) → ((e : Thrown) → Total (h e)) → Total (catch m h)
  Total-catch m h t = record {
    returns = λ w.
        catch-with (λ r. Unit {0}) Returned m h w tt (λ a v q. (a, refl))
          (λ e v q. (t e).returns v);
  }

  pub Total-if : (b : Bool) (m n : Exec A) → Total m → Total n → Total (if b then m else n)
  Total-if true m n tm tn = tm
  Total-if false m n tm tn = tn

module _ {A B : Type 0} where
  pub Total-bind :
      (m : Exec A) (f : A → Exec B) → Total m → ((a : A) → Total (f a)) → Total (m >>= f)
  Total-bind m f tm tf = record {
    returns = λ w.
        bind-with Returned Returned m f w (tm.returns w) (λ a v q. (tf a).returns v)
          (λ e v q. thrown e v q);
  }
    where
      thrown : (e : Thrown) (v : World) → Returned {A = A} (err e, v) → Returned {A = B} (err e, v)
      thrown e v (a, q) = ground (arith, q)

  pub Total-given :
      (o : Option A) (m : Exec B) (f : A → Exec B)
      → Total m
      → ((a : A) → Total (f a))
      → Total (given o m f)
  Total-given none m f tm tf = tm
  Total-given (some a) m f tm tf = tf a

pub Total-modify : (f : World → World) → Total (modify f)
Total-modify f = record { returns = λ w. (tt, refl) }

module _ (env : Env) where
  pub Total-clock : Total (clock env)
  Total-clock = record { returns = λ w. (env.now w.calls, refl) }

  pub Total-random_uuid : Total (random_uuid env)
  Total-random_uuid = record { returns = λ w. (env.uuid w.calls, refl) }

pub ruleset total_rules = (
  Total-pure, Total-gets, Total-catch, Total-if, Total-bind, Total-given, Total-modify, Total-clock,
  Total-random_uuid,
)
