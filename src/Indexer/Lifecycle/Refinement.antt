-- ===== src/Indexer/Lifecycle/Refinement.antt =====
-- What the advisory lock of src/indexer/lock.ts is for: the workers of src/indexer/worker.ts take turns.
use mathlib.Core.Path.{subst}
use streamgive_backend.Prelude.{
  ℕ, nat_eq, nat_eq_iff, Bool, true, false, Option, none, some, ◌≡◌, ap, sym, ◌∙◌, Bool-cases,
  Option-cases, inl, inr, refl, arith, [],
}
use streamgive_backend.Indexer.Lifecycle.{Worker, Event, polling, start}
use streamgive_backend.Indexer.Lifecycle.System.{Server, IsAdvisory, System, acts, loses, put, move}
use streamgive_backend.Indexer.Lifecycle.Exclusion.{
  Reaches, started, moved, Acted, acted, exclusion,
}

-- The specification: whose turn it is to poll, if anyone's.
pub data Turn : Option ℕ → Option ℕ → Type 0 where
  stays : {a : Option ℕ} → Turn a a
  enters : (i : ℕ) → Turn none (some i)
  leaves : (i : ℕ) → Turn (some i) none

abbrev pub polls : Worker → Bool
polls w = elim w.awaits [ polling ↦ true | _ ↦ false ]

abbrev pub is_turn : ℕ → Option ℕ → Bool
is_turn i none = false
is_turn i (some j) = nat_eq i j

-- The worker whose turn it is polls, and no other one does.
abbrev pub TakesTurns : (ℕ → Worker) → Option ℕ → Type 0
TakesTurns workers a = (i : ℕ) → polls (workers i) ≡ is_turn i a

polls→polling : (w : Worker) → polls w ≡ true → w.awaits ≡ polling
polls→polling w h = ground arith

polls-start : polls start ≡ false
polls-start = refl

-- A run of the specification beside a run of the workers: a turn for every move, and after each of them
-- the worker whose turn it is polls, and no other one does.
abbrev pub Simulates :
    {Store : Type 0} (server : Server Store) (interval : ℕ) {s : System Store}
    → Reaches server interval s
    → Option ℕ
    → Type 0
Simulates server interval started b = (b ≡ none) × TakesTurns (λ _. start) b
Simulates server interval (moved {t} m r e) b =
    (a : Option ℕ) × Simulates server interval r a × Turn a b × TakesTurns t.workers b

module _ {Store : Type 0} (server : Server Store) (interval : ℕ) (laws : IsAdvisory server) where
  alone :
      {s : System Store}
      → Reaches server interval s
      → s.lost ≡ []
      → (i j : ℕ) → polls (s.workers i) ≡ true
      → polls (s.workers j) ≡ true
      → nat_eq i j ≡ true
  alone {s} r none_lost i j p q = elim (Bool-cases (nat_eq i j)) [
    | inl same ↦ same
    | inr differ ↦
        absurd
          (elim (exclusion server interval laws r i j (λ e. ground (arith, differ, nat_eq_iff i j))
            (polls→polling (s.workers i) p) (polls→polling (s.workers j) q)) [
              | inl lost ↦ ground (arith, none_lost)
              | inr lost ↦ ground (arith, none_lost)
            ])
  ]

  Turn-Acted :
      {s t : System Store} {i : ℕ} {e : Event} {a : Option ℕ}
      → Acted server interval i e s t
      → Reaches server interval t
      → t.lost ≡ []
      → TakesTurns s.workers a
      → (b : Option ℕ) × Turn a b × TakesTurns t.workers b
  Turn-Acted {s} {t} {i} {e} {a} acts_on r none_lost now =
      go (polls (s.workers i)) (polls acts_on.after) refl refl
    where
      workers-eq : (j : ℕ) → t.workers j ≡ put i acts_on.after s.workers j
      workers-eq j = ap (λ u. u.workers j) acts_on.result

      go :
          (p q : Bool)
          → polls (s.workers i) ≡ p
          → polls acts_on.after ≡ q
          → (b : Option ℕ) × Turn a b × TakesTurns t.workers b
      go true true p q =
          (a, stays, λ j. ground (arith, workers-eq j, now j, nat_eq_iff j i, p, q, now i))
      go false false p q =
          (a, stays, λ j. ground (arith, workers-eq j, now j, nat_eq_iff j i, p, q, now i))
      go false true p q = elim (Option-cases a) [
        | inl free ↦ (
          some i,
          subst (λ x. Turn x (some i)) (sym free) (enters i),
          λ j. ground (arith, free, workers-eq j, now j, nat_eq_iff j i, p, q),
        )
        | inr (j, taken) ↦
            let same =
              alone r none_lost j i
                (ground (arith, taken, workers-eq j, now j, nat_eq_iff j i, p, nat_eq_iff j j))
                (ground (arith, workers-eq i, q, nat_eq_iff i i)) in
            absurd (ground (arith, taken, same, now i, now j, p, nat_eq_iff j i, nat_eq_iff i j))
      ]
      go true false p q = elim (Option-cases a) [
        | inl free ↦ absurd (ground (arith, free, now i, p))
        | inr (j, taken) ↦ (
          none,
          subst (λ x. Turn x none) (sym taken) (leaves j),
          λ k. ground (
            arith,
            taken,
            workers-eq k,
            now k,
            now i,
            nat_eq_iff i j,
            nat_eq_iff k i,
            nat_eq_iff k j,
            p,
            q,
          ),
        )
      ]

  turn-now :
      {s : System Store} (r : Reaches server interval s) (a : Option ℕ)
      → Simulates server interval r a
      → TakesTurns s.workers a
  turn-now started b (e, now) = now
  turn-now (moved m r h) b (a, before, turn, now) = now

  -- Postgres being as documented, and no session ended by the server on its own: every run of the workers
  -- is a run of the specification. Each move lets the turn be, or lets a worker enter while it is
  -- nobody's, or leave; and after each move the worker whose turn it is has a poll in flight, and no other
  -- one has.
  pub turns :
      {s : System Store} (r : Reaches server interval s)
      → s.lost ≡ []
      → (a : Option ℕ) × Simulates server interval r a
  unfolding move
  turns started e = (none, (refl, λ i. polls-start))
  turns (moved {s} (acts i e) r h) none_lost =
      let a = acted server interval i e s h in
      let (before, path) = turns r (sym (ap (λ u. u.lost) a.result) ∙ none_lost) in
      let (after, turn, later) =
        Turn-Acted a (moved (acts i e) r h) none_lost (turn-now r before path) in
      (after, (before, path, turn, later))
  turns (moved (loses dead) r h) none_lost = absurd (ground (arith, none_lost))
