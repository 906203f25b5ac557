-- ===== src/Tests/Lifecycle.antt =====
-- Two workers of src/indexer/worker.ts and a server of the simplest kind: the session that owns the lock.
use streamgive_backend.Prelude.{
  ℕ, nat_eq_iff, true, false, Option, none, some, ◌≡◌, ◌≢◌, ◌⊎◌, inl, inr, Option-cases, refl,
  arith, if◌then◌else◌, List, [], ◌∷◌,
}
use streamgive_backend.Indexer.Lifecycle.{
  polling, start, step, timer_fires, query_executes, query_returns, stop_called, run_settles,
  connected, ended, polled, unlocked, closed,
}
use streamgive_backend.Indexer.Lifecycle.System.{
  Session, Server, IsAdvisory, System, Move, acts, loses, session, session_of, same_session,
  is_lost, move, can_happen, effect,
}
use streamgive_backend.Indexer.Lifecycle.Exclusion.{Reaches, started, moved, exclusion}
use streamgive_backend.Indexer.Lifecycle.Refinement.{Simulates, turns}

abbrev forget : Session → Option Session → Option Session
forget s none = none
forget s (some t) = if same_session s t then none else some t

abbrev one_lock : Server (Option Session)
one_lock = record {
  owner = λ x. x;
  locks = λ s x. elim x [ none ↦ true | some t ↦ same_session s t ];
  try_lock = λ s x. elim x [ none ↦ some s | some t ↦ some t ];
  unlock = forget;
  close = forget;
}

same_session-eq : (s t : Session) → same_session s t ≡ true → t ≡ s
same_session-eq s t h = ground (arith, nat_eq_iff s.worker t.worker, nat_eq_iff s.client t.client)

forget-keeps : {x : Option Session} {s t : Session} → t ≢ s → x ≡ some t → forget s x ≡ some t
forget-keeps {x} {s} {t} n o = rw o (ground (arith, same_session-eq s t))

grants :
    (x : Option Session) (s : Session) → one_lock.locks s x ≡ true → one_lock.try_lock s x ≡ some s
grants none s g = refl
grants (some t) s g = ground (arith, same_session-eq s t)

excludes : {x : Option Session} {s t : Session} → one_lock.locks s x ≡ true → x ≡ some t → t ≡ s
excludes {x} {s} {t} g o = same_session-eq s t (ground (arith, g, o))

refuses :
    (x : Option Session) (s : Session) → one_lock.locks s x ≡ false → one_lock.try_lock s x ≡ x
refuses none s r = absurd (ground arith)
refuses (some t) s r = refl

one_lock-IsAdvisory : IsAdvisory one_lock
one_lock-IsAdvisory = record {
  granted = grants _ _;
  exclusive = excludes;
  refused = refuses _ _;
  unlock-keeps = forget-keeps;
  close-keeps = forget-keeps;
}

abbrev both_poll : List Move
both_poll =
    acts 0 (connected true)
    ∷ acts 0 query_executes
    ∷ acts 0 query_returns
    ∷ loses (session 0 1)
    ∷ acts 1 (connected true)
    ∷ acts 1 query_executes
    ∷ acts 1 query_returns
    ∷ []

abbrev in_turn : List Move
in_turn =
    acts 0 (connected true)
    ∷ acts 0 query_executes
    ∷ acts 0 query_returns
    ∷ acts 1 (connected true)
    ∷ acts 1 query_executes
    ∷ acts 1 query_returns
    ∷ acts 1 (ended true)
    ∷ acts 0 stop_called
    ∷ acts 0 (polled true)
    ∷ acts 0 run_settles
    ∷ acts 0 (unlocked true)
    ∷ acts 0 (closed true)
    ∷ acts 1 timer_fires
    ∷ acts 1 (connected true)
    ∷ acts 1 query_executes
    ∷ acts 1 query_returns
    ∷ []

abbrev begin : System (Option Session)
begin = record { workers = λ _. start; store = none; lost = [] }

-- The moves from the first to the last; a move that cannot happen is passed over.
run : List Move → System (Option Session) → System (Option Session)
run [] s = s
run (m ∷ ms) s = elim (move one_lock 5000 m s) [ none ↦ run ms s | some t ↦ run ms t ]

run-Reaches :
    (ms : List Move) (s : System (Option Session))
    → Reaches one_lock 5000 s
    → Reaches one_lock 5000 (run ms s)
unfolding run
run-Reaches [] s r = r
run-Reaches (m ∷ ms) s r = elim (Option-cases (move one_lock 5000 m s)) [
  | inl stuck ↦ rw (stuck, run) (run-Reaches ms s r)
  | inr (t, e) ↦ rw (e, run) (run-Reaches ms t (moved m r e))
]

polling_0 : ((run both_poll begin).workers 0).awaits ≡ polling
unfolding run move step can_happen effect
polling_0 = refl

polling_1 : ((run both_poll begin).workers 1).awaits ≡ polling
unfolding run move step can_happen effect
polling_1 = refl

none_lost : (run in_turn begin).lost ≡ []
unfolding run move step can_happen effect
none_lost = refl

-- All the moves of `in_turn` happen: the last one is the second worker's poll.
turn_of_1 : ((run in_turn begin).workers 1).awaits ≡ polling
unfolding run move step can_happen effect
turn_of_1 = refl

exclusion_example :
    (is_lost (session_of 0 ((run both_poll begin).workers 0)) (run both_poll begin).lost ≡ true)
    ⊎ (is_lost (session_of 1 ((run both_poll begin).workers 1)) (run both_poll begin).lost ≡ true)
exclusion_example =
    exclusion one_lock 5000 one_lock-IsAdvisory (run-Reaches both_poll begin started) 0 1
      (λ e. omega (arith, e)) polling_0 polling_1

turns_example : (a : Option ℕ) × Simulates one_lock 5000 (run-Reaches in_turn begin started) a
turns_example =
    turns one_lock 5000 one_lock-IsAdvisory (run-Reaches in_turn begin started) none_lost
