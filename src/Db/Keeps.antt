-- ===== src/Db/Keeps.antt =====
-- Relations between the world before and after an action, with one rule for each way to build an
-- action: what holds of every step holds of the whole, whether it returns or throws.
use streamgive_backend.Prelude.{Bool, true, false, Option, none, some, if◌then◌else◌}
use streamgive_backend.Db.{Database}
use streamgive_backend.Db.Exec.{
  Thrown, Result, ok, err, World, Env, Exec, pure, throw, lift, ◌>>=◌, gets, modify, catch, tick,
  rollback, prisma, transaction, clock, random_uuid, given,
}

pub record Relation : Type 1 where
  pub holds : World → World → Type 0
  pub same : (w : World) → holds w w
  pub after : {u v w : World} → holds u v → holds v w → holds u w
  pub ticks : (w : World) → holds w (tick w)
  pub rolls : (v w : World) → holds v w → holds v (rollback v w)

-- The world before `m` stands in the relation to the world after it.
pub record Keeps (R : Relation) {A : Type 0} (m : Exec A) : Type 0 where
  pub at : (w : World) → R.holds w (m w).1

module _ {R : Relation} where
  module _ {A : Type 0} where
    pub Keeps-pure : (a : A) → Keeps R (pure a)
    Keeps-pure a = record { at = R.same }

    pub Keeps-throw : (e : Thrown) → Keeps R (throw {A = A} e)
    Keeps-throw e = record { at = R.same }

    pub Keeps-lift : (r : Result A) → Keeps R (lift r)
    Keeps-lift r = record { at = R.same }

    pub Keeps-gets : (f : World → A) → Keeps R (gets f)
    Keeps-gets f = record { at = R.same }

    pub Keeps-if : (b : Bool) (m n : Exec A) → Keeps R m → Keeps R n → Keeps R (if b then m else n)
    Keeps-if true m n km kn = km
    Keeps-if false m n km kn = kn

  pub Keeps-given :
      {A B : Type 0} (o : Option A) (m : Exec B) (f : A → Exec B)
      → Keeps R m
      → ((a : A) → Keeps R (f a))
      → Keeps R (given o m f)
  Keeps-given none m f km kf = km
  Keeps-given (some a) m f km kf = kf a

  pub Keeps-modify : (f : World → World) → ((w : World) → R.holds w (f w)) → Keeps R (modify f)
  Keeps-modify f h = record { at = h }

  module _ {A B : Type 0} where
    continue :
        (w w' : World) (r : Result A) (f : A → Exec B)
        → ((a : A) → Keeps R (f a))
        → R.holds w w'
        → R.holds w (elim r as (λ _. Result B × World) [ ok a ↦ f a w' | err e ↦ (err e, w') ]).1
    continue w w' (ok a) f k h = R.after h ((k a).at w')
    continue w w' (err e) f k h = h

    pub Keeps-bind :
        (m : Exec A) (f : A → Exec B) → Keeps R m → ((a : A) → Keeps R (f a)) → Keeps R (m >>= f)
    Keeps-bind m f km kf = record { at = λ w. continue w (m w).1 (m w).0 f kf (km.at w) }

  module _ {A : Type 0} where
    recover :
        (w w' : World) (r : Result A) (h : Thrown → Exec A)
        → ((e : Thrown) → Keeps R (h e))
        → R.holds w w'
        → R.holds w (elim r as (λ _. Result A × World) [ ok a ↦ (ok a, w') | err e ↦ h e w' ]).1
    recover w w' (ok a) h k p = p
    recover w w' (err e) h k p = R.after p ((k e).at w')

    pub Keeps-catch :
        (m : Exec A) (h : Thrown → Exec A)
        → Keeps R m
        → ((e : Thrown) → Keeps R (h e))
        → Keeps R (catch m h)
    Keeps-catch m h km kh = record { at = λ w. recover w (m w).1 (m w).0 h kh (km.at w) }

  module _ (env : Env) where
    pub Keeps-clock : Keeps R (clock env)
    Keeps-clock = record { at = R.ticks }

    pub Keeps-random_uuid : Keeps R (random_uuid env)
    Keeps-random_uuid = record { at = R.ticks }

  module _ (env : Env) {A : Type 0} where
    -- The rule for one call asks only what the query does to the database.
    pub Keeps-prisma :
        (f : Database → Result A × Database)
        → ((w : World) → R.holds w (record w { database = (f w.database).1 }))
        → Keeps R (prisma env f)
    unfolding prisma
    Keeps-prisma f h = record { at = λ w. called w (env.fault w.calls) }
      where
        called :
            (w : World) (fault : Option Thrown)
            → R.holds w
                (elim fault as (λ _. Result A × World) [
                  | some e ↦ (err e, tick w)
                  | none ↦ ((f w.database).0, record (tick w) { database = (f w.database).1 })
                ]).1
        called w (some e) = R.ticks w
        called w none = R.after (h w) (R.ticks _)

    pub Keeps-transaction : (body : Exec A) → Keeps R body → Keeps R (transaction env body)
    unfolding transaction
    Keeps-transaction body k = record { at = λ w. ended w (body w).1 (body w).0 (k.at w) }
      where
        committed :
            (w w' : World) (a : A) (fault : Option Thrown)
            → R.holds w w'
            → R.holds w
                (elim fault as (λ _. Result A × World) [
                  | some e ↦ (err e, rollback w (tick w'))
                  | none ↦ (ok a, tick w')
                ]).1
        committed w w' a (some e) h = R.rolls w (tick w') (R.after h (R.ticks w'))
        committed w w' a none h = R.after h (R.ticks w')

        ended :
            (w w' : World) (r : Result A)
            → R.holds w w'
            → R.holds w
                (elim r as (λ _. Result A × World) [
                  | err e ↦ (err e, rollback w w')
                  | ok a ↦ elim (env.fault w'.calls) as (λ _. Result A × World) [
                    | some e ↦ (err e, rollback w (tick w'))
                    | none ↦ (ok a, tick w')
                  ]
                ]).1
        ended w w' (err e) h = R.rolls w w' h
        ended w w' (ok a) h = committed w w' a (env.fault w'.calls) h

pub ruleset keeps_rules = (
  Keeps-pure, Keeps-throw, Keeps-lift, Keeps-gets, Keeps-if, Keeps-bind, Keeps-catch,
  Keeps-transaction, Keeps-clock, Keeps-random_uuid, Keeps-given,
)
