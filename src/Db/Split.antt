-- ===== src/Db/Split.antt =====
-- Case rules: what holds after an action follows from what holds on each way through it.
use streamgive_backend.Prelude.{◌≡◌, refl, Bool, true, false, Option, none, some, if◌then◌else◌}
use streamgive_backend.Db.{Database}
use streamgive_backend.Db.Keeps.{Relation, Keeps}
use streamgive_backend.Db.Exec.{
  Thrown, Result, ok, err, World, Env, Exec, ◌>>=◌, catch, tick, rollback, prisma, query,
  transaction,
}

pub bind-split :
    {A B : Type 0} (P : Result B × World → Type 0) (m : Exec A) (f : A → Exec B) (w : World)
    → ((a : A) → (m w).0 ≡ ok a → P (f a (m w).1))
    → ((e : Thrown) → (m w).0 ≡ err e → P (err e, (m w).1))
    → P ((m >>= f) w)
bind-split {A} {B} P m f w returned thrown = go (m w).0 returned thrown
  where
    go :
        (r : Result A)
        → ((a : A) → r ≡ ok a → P (f a (m w).1))
        → ((e : Thrown) → r ≡ err e → P (err e, (m w).1))
        → P (elim r as (λ _. Result B × World) [ ok a ↦ f a (m w).1 | err e ↦ (err e, (m w).1) ])
    go (ok a) k t = k a refl
    go (err e) k t = t e refl

-- The same, where a fact `Q` about what `m` did is at hand.
pub bind-with :
    {A B : Type 0} (Q : Result A × World → Type 0) (P : Result B × World → Type 0) (m : Exec A)
    (f : A → Exec B) (w : World)
    → Q (m w)
    → ((a : A) (v : World) → Q (ok a, v) → P (f a v))
    → ((e : Thrown) (v : World) → Q (err e, v) → P (err e, v))
    → P ((m >>= f) w)
bind-with {A} {B} Q P m f w q returned thrown = go (m w).0 (m w).1 q
  where
    go :
        (r : Result A) (v : World)
        → Q (r, v)
        → P (elim r as (λ _. Result B × World) [ ok a ↦ f a v | err e ↦ (err e, v) ])
    go (ok a) v h = returned a v h
    go (err e) v h = thrown e v h

pub catch-with :
    {A : Type 0} (Q P : Result A × World → Type 0) (m : Exec A) (h : Thrown → Exec A) (w : World)
    → Q (m w)
    → ((a : A) (v : World) → Q (ok a, v) → P (ok a, v))
    → ((e : Thrown) (v : World) → Q (err e, v) → P (h e v))
    → P (catch m h w)
catch-with {A} Q P m h w q returned thrown = go (m w).0 (m w).1 q
  where
    go :
        (r : Result A) (v : World)
        → Q (r, v)
        → P (elim r as (λ _. Result A × World) [ ok a ↦ (ok a, v) | err e ↦ h e v ])
    go (ok a) v q = returned a v q
    go (err e) v q = thrown e v q

pub if-split :
    {A : Type 0} (P : Result A × World → Type 0) (b : Bool) (m n : Exec A) (w : World)
    → (b ≡ true → P (m w))
    → (b ≡ false → P (n w))
    → P ((if b then m else n) w)
if-split P true m n w t f = t refl
if-split P false m n w t f = f refl

module _ (env : Env) {A : Type 0} (P : Result A × World → Type 0) where
  pub prisma-split :
      (f : Database → Result A × Database) (w : World)
      → ((e : Thrown) → P (err e, tick w))
      → P ((f w.database).0, record (tick w) { database = (f w.database).1 })
      → P (prisma env f w)
  unfolding prisma
  prisma-split f w failed answered = go (env.fault w.calls)
    where
      go :
          (fault : Option Thrown)
          → P (elim fault as (λ _. Result A × World) [
            | some e ↦ (err e, tick w)
            | none ↦ ((f w.database).0, record (tick w) { database = (f w.database).1 })
          ])
      go (some e) = failed e
      go none = answered

  pub transaction-split :
      (body : Exec A) (w : World)
      → ((e : Thrown) → P (err e, rollback w (body w).1))
      → ((e : Thrown) → P (err e, rollback w (tick (body w).1)))
      → ((a : A) → (body w).0 ≡ ok a → P (ok a, tick (body w).1))
      → P (transaction env body w)
  unfolding transaction
  transaction-split body w threw unsaved done = go (body w).0 done
    where
      committed :
          (a : A) (fault : Option Thrown)
          → P (ok a, tick (body w).1)
          → P (elim fault as (λ _. Result A × World) [
            | some e ↦ (err e, rollback w (tick (body w).1))
            | none ↦ (ok a, tick (body w).1)
          ])
      committed a (some e) k = unsaved e
      committed a none k = k

      go :
          (r : Result A)
          → ((a : A) → r ≡ ok a → P (ok a, tick (body w).1))
          → P (elim r as (λ _. Result A × World) [
            | err e ↦ (err e, rollback w (body w).1)
            | ok a ↦ elim (env.fault (body w).1.calls) as (λ _. Result A × World) [
              | some e ↦ (err e, rollback w (tick (body w).1))
              | none ↦ (ok a, tick (body w).1)
            ]
          ])
      go (err e) k = threw e
      go (ok a) k = committed a (env.fault (body w).1.calls) (k a refl)

-- Sequencing at one world: an action that keeps the world, and one that is known only there.
module _ (R : Relation) {A B : Type 0} (m : Exec A) (f : A → Exec B) (w : World) where
  pub holds-pass : (m w).1 ≡ w → ((a : A) → R.holds w (f a w).1) → R.holds w ((m >>= f) w).1
  holds-pass e k =
      bind-with (λ r. r.1 ≡ w) (λ r. R.holds w r.1) m f w e (λ a v q. rw q (k a))
        (λ e v q. rw q (R.same w))

  pub holds-then : R.holds w (m w).1 → ((a : A) → Keeps R (f a)) → R.holds w ((m >>= f) w).1
  holds-then h k =
      bind-with (λ r. R.holds w r.1) (λ r. R.holds w r.1) m f w h (λ a v q. R.after q ((k a).at v))
        (λ e v q. q)

-- A query and what follows it: the world is as before but for the count of calls.
pub query-bind :
    (env : Env) {A B : Type 0} (P : Result B × World → Type 0) (f : Database → A) (k : A → Exec B)
    (w : World)
    → ((e : Thrown) → P (err e, tick w))
    → P (k (f w.database) (tick w))
    → P ((query env f >>= k) w)
unfolding prisma
query-bind env {A} {B} P f k w failed answered = go (env.fault w.calls)
  where
    go :
        (fault : Option Thrown)
        → P
            (elim (elim fault as (λ _. Result A × World) [
              | some e ↦ (err e, tick w)
              | none ↦ (ok (f w.database), tick w)
            ]).0
              as (λ _. Result B × World) [
                | ok a ↦
                    k a
                      (elim fault as (λ _. Result A × World) [
                        | some e ↦ (err e, tick w)
                        | none ↦ (ok (f w.database), tick w)
                      ]).1
                | err e ↦ (
                  err e,
                  (elim fault as (λ _. Result A × World) [
                    | some e ↦ (err e, tick w)
                    | none ↦ (ok (f w.database), tick w)
                  ]).1,
                )
              ])
    go (some e) = failed e
    go none = answered
