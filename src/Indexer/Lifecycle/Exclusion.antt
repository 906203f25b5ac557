-- ===== src/Indexer/Lifecycle/Exclusion.antt =====
-- Several workers of src/indexer/worker.ts on one server: who polls.
use mathlib.Core.Path.{subst}
use mathlib.Core.Option.{some-injective}
use streamgive_backend.Prelude.{
  ℕ, nat_eq, nat_eq_iff, Bool, true, false, Option, none, some, ◌≡◌, ap, ◌∙◌, Bool-cases, ◌≢◌, ◌⊎◌,
  inl, inr, refl, sym, arith, if◌then◌else◌, List, [], ◌∷◌,
}
use streamgive_backend.Indexer.Lifecycle.{
  Worker, Event, query_executes, ended, unlocked, closed, polling, step, start,
}
use streamgive_backend.Indexer.Lifecycle.Claims.{
  claims, shape, quiet, shape-step, claims-step, claims-polling, shape-start, claims-start,
}
use streamgive_backend.Indexer.Lifecycle.System.{
  Session, Server, IsAdvisory, System, Move, acts, loses, session, session_of, is_lost, put, effect,
  can_happen, move,
}

module _ {Store : Type 0} (server : Server Store) (interval : ℕ) where
  -- The states that the moves lead to, from workers that have just been started.
  pub data Reaches : System Store → Type 0 where
    started : {x : Store} → Reaches (record { workers = λ _. start; store = x; lost = [] })
    moved :
        {s t : System Store} (m : Move) → Reaches s → move server interval m s ≡ some t → Reaches t

  -- A session that a worker claims owns the lock, unless the server has ended it.
  record Owned (s : System Store) : Type 0 where
    shapes : (i : ℕ) → shape (s.workers i) ≡ true
    owns :
        (i k : ℕ)
        → claims (s.workers i) ≡ some k
        → is_lost (session i k) s.lost ≡ false
        → server.owner s.store ≡ some (session i k)

  -- What a worker's event does to the system.
  pub record Acted (i : ℕ) (e : Event) (s t : System Store) : Type 0 where
    pub after : Worker
    pub happens : can_happen (session_of i (s.workers i)) e s.lost ≡ true
    pub steps :
        step interval (server.locks (session_of i (s.workers i)) s.store) e (s.workers i)
        ≡ some after
    pub result : t ≡ record {
      workers = put i after s.workers;
      store = effect server (session_of i (s.workers i)) e s.store;
      lost = s.lost;
    }

  pub acted :
      (i : ℕ) (e : Event) (s : System Store) {t : System Store}
      → move server interval (acts i e) s ≡ some t
      → Acted i e s t
  unfolding move
  acted i e s {t} h =
      go (can_happen (session_of i (s.workers i)) e s.lost)
        (step interval (server.locks (session_of i (s.workers i)) s.store) e (s.workers i)) refl
        refl h
    where
      go :
          (b : Bool) (o : Option Worker)
          → can_happen (session_of i (s.workers i)) e s.lost ≡ b
          → step interval (server.locks (session_of i (s.workers i)) s.store) e (s.workers i) ≡ o
          → (if b
              then elim o as (λ _. Option (System Store)) [
                | none ↦ none
                | some w ↦ some (record s {
                  workers = put i w s.workers;
                  store = effect server (session_of i (s.workers i)) e s.store;
                })
              ]
              else none)
            ≡ some t
          → Acted i e s t
      go true (some w) eb eo q = record {
        after = w;
        happens = eb;
        steps = eo;
        result = ground arith;
      }
      go true none eb eo q = absurd (ground arith)
      go false o eb eo q = absurd (ground arith)

  session-ne : {i j : ℕ} (k l : ℕ) → i ≢ j → session i k ≢ session j l
  session-ne k l n e = n (ap (λ s. s.worker) e)

  -- An event of another worker takes the lock from nobody.
  owner-effect :
      IsAdvisory server
      → (s : Session) (e : Event) (x : Store) {t : Session} → t ≢ s
      → server.owner x ≡ some t
      → server.owner (effect server s e x) ≡ some t
  unfolding effect
  owner-effect laws s query_executes x {t} n o = elim (Bool-cases (server.locks s x)) [
    | inl granted ↦ absurd (n (laws.exclusive granted o))
    | inr refused ↦ laws.refused refused ∙ o
  ]
  owner-effect laws s (ended r) x n o = ground (arith, laws.close-keeps n o)
  owner-effect laws s (unlocked r) x n o = ground (arith, laws.unlock-keeps n o)
  owner-effect laws s (closed r) x n o = ground (arith, laws.close-keeps n o)
  owner-effect laws s e x n o = o

  effect-quiet : (s : Session) (e : Event) (x : Store) → quiet e ≡ true → effect server s e x ≡ x
  unfolding effect
  effect-quiet s query_executes x q = absurd (ground arith)
  effect-quiet s (ended r) x q = absurd (ground arith)
  effect-quiet s (unlocked r) x q = absurd (ground arith)
  effect-quiet s (closed r) x q = absurd (ground arith)
  effect-quiet s e x q = refl

  owner-granted :
      IsAdvisory server
      → (s : Session) (x : Store) → server.locks s x ≡ true
      → server.owner (effect server s query_executes x) ≡ some s
  unfolding effect
  owner-granted laws s x g = laws.granted g

  same-kept : (j k : ℕ) (lost : List Session) → is_lost (session j k) (session j k ∷ lost) ≢ false
  same-kept j k lost h = ground (arith, nat_eq_iff j j, nat_eq_iff k k)

  module _ (laws : IsAdvisory server) {s : System Store} (o : Owned s) where
    open o use {shapes, owns}

    module _ {i : ℕ} {e : Event} {t : System Store} (a : Acted i e s t) where
      open a use {after, steps, result}

      shapes-acted : (j : ℕ) → shape (put i after s.workers j) ≡ true
      shapes-acted j = elim (Bool-cases (nat_eq j i)) [
        | inl here ↦ ground (arith, shape-step interval _ e (s.workers i) steps (shapes i))
        | inr there ↦ ground (arith, shapes j)
      ]

      -- The worker that acted.
      owns-actor :
          (k : ℕ)
          → claims after ≡ some k
          → is_lost (session i k) s.lost ≡ false
          → server.owner (effect server (session_of i (s.workers i)) e s.store) ≡ some (session i k)
      owns-actor k c l = elim (claims-step interval _ e (s.workers i) steps (shapes i) c) [
        | inl (before, q) ↦ ap server.owner (effect-quiet _ e s.store q) ∙ owns i k before l
        | inr (executes, granted, k_eq) ↦ rw (executes, k_eq) (owner-granted laws _ s.store granted)
      ]

      owns-acted :
          (j k : ℕ)
          → claims (put i after s.workers j) ≡ some k
          → is_lost (session j k) s.lost ≡ false
          → server.owner (effect server (session_of i (s.workers i)) e s.store) ≡ some (session j k)
      owns-acted j k c l = elim (Bool-cases (nat_eq j i)) [
        | inl here ↦
            let e = (nat_eq_iff j i).0 here in
            rw e (owns-actor k (ground (arith, here)) (rw (sym e) l))
        | inr there ↦
            owner-effect laws _ e s.store (session-ne k _ (λ q. ground (arith, there)))
              (owns j k (ground (arith, there)) l)
      ]

    Owned-Acted : {i : ℕ} {e : Event} {t : System Store} → Acted i e s t → Owned t
    Owned-Acted {t} a =
        subst Owned (sym a.result) (record { shapes = shapes-acted a; owns = owns-acted a })

    Owned-lost :
        (ended : Session)
        → Owned (record s { store = server.close ended s.store; lost = ended ∷ s.lost })
    Owned-lost dead = record {
      shapes = shapes;
      owns = λ j k c l.
          laws.close-keeps
            (λ q.
              same-kept j k s.lost
                (subst (λ d. is_lost (session j k) (d ∷ s.lost) ≡ false) (sym q) l))
            (owns j k c (ground (arith, l)));
    }

  Owned-Reaches : IsAdvisory server → {s : System Store} → Reaches s → Owned s
  unfolding move
  Owned-Reaches laws started = record {
    shapes = λ i. shape-start;
    owns = λ i k c l. absurd (ground (arith, claims-start));
  }
  Owned-Reaches laws (moved {s} (acts i e) r h) =
      Owned-Acted laws (Owned-Reaches laws r) (acted i e s h)
  Owned-Reaches laws (moved {s} (loses dead) r h) =
      subst Owned (ground arith) (Owned-lost laws (Owned-Reaches laws r) dead)

  -- Whatever the interleaving of the workers and whatever the server, the network and the workers' stop
  -- functions do: when two workers have a poll in flight at once, the server has ended the session of
  -- one of them on its own. No condition but what Postgres documents of advisory locks.
  pub exclusion :
      IsAdvisory server
      → {s : System Store} → Reaches s
      → (i j : ℕ) → i ≢ j
      → (s.workers i).awaits ≡ polling
      → (s.workers j).awaits ≡ polling
      → (is_lost (session_of i (s.workers i)) s.lost ≡ true)
        ⊎ (is_lost (session_of j (s.workers j)) s.lost ≡ true)
  exclusion laws {s} r i j n p q =
      let o = Owned-Reaches laws r in
      elim (Bool-cases (is_lost (session_of i (s.workers i)) s.lost)) [
        | inl lost ↦ inl lost
        | inr kept ↦ elim (Bool-cases (is_lost (session_of j (s.workers j)) s.lost)) [
          | inl lost ↦ inr lost
          | inr kept' ↦ absurd (
              session-ne _ _ n (
                some-injective _ _ (
                  sym (o.owns i _ (claims-polling (s.workers i) p (o.shapes i)) kept)
                  ∙ o.owns j _ (claims-polling (s.workers j) q (o.shapes j)) kept')))
        ]
      ]
