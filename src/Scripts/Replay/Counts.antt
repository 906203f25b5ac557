-- ===== src/Scripts/Replay/Counts.antt =====
-- The report of a replay adds up.
use streamgive_backend.Prelude.{
  ℕ, suc, refl, sym, ◌+◌, ◌≡◌, Bool, true, false, List, [], ◌∷◌, length, select, String,
  if◌then◌else◌, arith,
}
use streamgive_backend.Db.{DeadLetter, Database}
use streamgive_backend.Db.Exec.{Result, ok, err, Env, Exec, World, prisma, pure, ◌>>=◌}
use streamgive_backend.Db.Split.{bind-with, prisma-split}
use streamgive_backend.Indexer.Event.{Sdk, ContractEvent}
use streamgive_backend.Scripts.Replay.{
  ReplayReport, is_unresolved, replay_one, replay_rows, replay_dead_letters, report,
}

abbrev Adds : ℕ → Result (ℕ × ℕ) × World → Type 0
Adds n (ok (resolved, failed), w) = resolved + failed ≡ n
Adds n (err e, w) = Unit {0}

-- A report over `n` rows.
abbrev pub AddsUp : ℕ → Result ReplayReport × World → Type 0
AddsUp n (ok r, w) = (r.resolved + r.failed ≡ r.attempted) × (r.attempted ≡ n)
AddsUp n (err e, w) = Unit {0}

abbrev read : (List DeadLetter → List DeadLetter) → Database → Result (List DeadLetter) × Database
read order db = (ok (order (select is_unresolved db.dead_letters)), db)

module _ (env : Env) {ScVal : Type 0} (sdk : Sdk ScVal)
    (dispatcher : ContractEvent ScVal → Exec Unit) (watched : List String)
    (order : List DeadLetter → List DeadLetter) where
  Adds-cast : {m n : ℕ} (r : Result (ℕ × ℕ) × World) → m ≡ n → Adds m r → Adds n r
  Adds-cast (ok (resolved, failed), w) e h = omega arith
  Adds-cast (err x, w) e h = tt

  -- What the counters add up to after one more row, whether it is resolved or fails.
  counted :
      (rows : List DeadLetter) (resolved failed : ℕ) (done : Bool) (w : World)
      → ((r f : ℕ)
          → Adds (r + f + length rows) (replay_rows env sdk dispatcher watched order rows r f w))
      → Adds (suc (resolved + failed + length rows)) (
          replay_rows env sdk dispatcher watched order rows
            (if done then resolved + 1 else resolved)
            (if done then failed else failed + 1)
            w)
  counted rows resolved failed true w h =
      Adds-cast (replay_rows env sdk dispatcher watched order rows (resolved + 1) failed w)
        (omega arith) (h (resolved + 1) failed)
  counted rows resolved failed false w h =
      Adds-cast (replay_rows env sdk dispatcher watched order rows resolved (failed + 1) w)
        (omega arith) (h resolved (failed + 1))

  replay_rows-Adds :
      (rows : List DeadLetter) (resolved failed : ℕ) (w : World)
      → Adds
          (resolved + failed + length rows)
          (replay_rows env sdk dispatcher watched order rows resolved failed w)
  unfolding replay_rows
  replay_rows-Adds [] resolved failed w = omega arith
  replay_rows-Adds (row ∷ rows) resolved failed w =
      let rest = λ (done : Bool).
        replay_rows env sdk dispatcher watched order rows (if done then resolved + 1 else resolved)
          (if done then failed else failed + 1) in
      bind-with (λ r. Unit {0}) (Adds (resolved + failed + length (row ∷ rows)))
        (replay_one env sdk dispatcher watched order row) rest w tt
        (λ done v _.
          Adds-cast (rest done v) (omega arith)
            (counted rows resolved failed done v (λ r f. replay_rows-Adds rows r f v)))
        (λ e v _. tt)

  replay_all : List DeadLetter → Exec ReplayReport
  unfolding replay_dead_letters
  replay_all rows = do
    counts ← replay_rows env sdk dispatcher watched order rows 0 0
    pure (report env sdk dispatcher watched order (length rows) counts)

  replay_all-AddsUp :
      (rows : List DeadLetter) (w : World) → AddsUp (length rows) (replay_all rows w)
  unfolding replay_all
  replay_all-AddsUp rows w =
      bind-with (Adds (length rows)) (AddsUp (length rows))
        (replay_rows env sdk dispatcher watched order rows 0 0)
        (λ counts. pure (report env sdk dispatcher watched order (length rows) counts)) w
        (Adds-cast (replay_rows env sdk dispatcher watched order rows 0 0 w) (omega arith)
          (replay_rows-Adds rows 0 0 w))
        (λ counts v h. (h, refl)) (λ e v _. tt)

  -- A replay that returns attempted every unresolved row, and reports as many resolved and failed
  -- rows as it attempted.
  replay_dead_letters-AddsUp :
      (w : World)
      → AddsUp
          (length (order (select is_unresolved w.database.dead_letters)))
          (replay_dead_letters env sdk dispatcher watched order w)
  unfolding replay_dead_letters replay_all
  replay_dead_letters-AddsUp w =
      let unresolved = order (select is_unresolved w.database.dead_letters) in
      bind-with (λ r. elim r.0 [ ok rows ↦ rows ≡ unresolved | err e ↦ Unit {0} ])
        (AddsUp (length unresolved)) (prisma env (read order)) replay_all w
        (prisma-split env (λ r. elim r.0 [ ok rows ↦ rows ≡ unresolved | err e ↦ Unit {0} ])
          (read order) w (λ e. tt) refl)
        (λ rows v h. rw (sym h) (replay_all-AddsUp rows v)) (λ e v _. tt)
