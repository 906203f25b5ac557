-- ===== src/Indexer/DeadLetters/Attempts.antt =====
-- What the dead letter of one event holds after the event has failed any number of times.
use Prim.Native.Char.{code}
use streamgive_backend.Prelude.{
  ℕ, zero, suc, ◌+◌, ◌≤◌, String, ◌≡◌, refl, ◌∙◌, ap, ◌<>◌, find_first-upsert, Option, none, some,
  List, [], ◌∷◌, Bool, true, false, any, select, update_where, arith, length, find_first, units,
  ◌-◌, nat_eq, nat_eq_iff, leb, Bool-cases, inl, inr, slice, eq_refl,
}
use streamgive_backend.Db.{DeadLetter}
use streamgive_backend.Db.Split.{prisma-split}
use streamgive_backend.Scripts.Replay.{is_unresolved}
use streamgive_backend.Db.Exec.{Env, World, Thrown, error, object, thrown_value}
use streamgive_backend.Indexer.Event.{ContractEvent, Sdk}
use streamgive_backend.Indexer.DeadLetters.{
  describe_error, has_event_id, new_dead_letter, update_dead_letter, upsert_dead_letter,
  record_dead_letter,
}

units-slice : (n : ℕ) (s : String) → units (slice n s) ≤ n
units-slice zero s = omega arith
units-slice (suc n) String.[] = omega arith
units-slice (suc n) (String.◌∷◌ c s) =
    let rest = units-slice n s in
    let shorter = units-slice (n - 1) s in
    elim (Bool-cases (leb 65536 (code c))) [
      | inr narrow ↦ rw (narrow, narrow) (omega (arith, rest))
      | inl wide ↦ elim (Bool-cases (nat_eq n 0)) [
        | inl last ↦ rw (wide, last) (omega arith)
        | inr more ↦
            let positive : 1 ≤ n = ground (arith, more, nat_eq_iff n 0) in
            rw (wide, more, wide) (omega (arith, shorter, positive))
      ]
    ]

-- The text stored for an error has at most 2000 code units.
pub units-describe_error : (e : Thrown) → units (describe_error e) ≤ 2000
unfolding describe_error
units-describe_error (error class name message code) = units-slice 2000 (name <> ": " <> message)
units-describe_error (object message) = units-slice 2000 "[object Object]"
units-describe_error (thrown_value text) = units-slice 2000 text

abbrev attempts_of : Option DeadLetter → ℕ
attempts_of none = 0
attempts_of (some row) = row.attempts

abbrev resolved_of : Option DeadLetter → Option ℕ
resolved_of none = none
resolved_of (some row) = row.resolved_at

module _ {ScVal : Type 0} (sdk : Sdk ScVal) (event : ContractEvent ScVal) where
  -- The row that a failure leaves, from the row that was there.
  failed : String → Thrown → Option DeadLetter → DeadLetter
  unfolding new_dead_letter update_dead_letter
  failed id e o = elim o [
    | some row ↦ update_dead_letter sdk event e row
    | none ↦ new_dead_letter sdk id event e
  ]

  find_first-upsert_dead_letter :
      (id : String) (e : Thrown) (rows : List DeadLetter)
      → find_first (has_event_id event.id) (upsert_dead_letter sdk id event e rows)
        ≡ some (failed id e (find_first (has_event_id event.id) rows))
  unfolding upsert_dead_letter failed new_dead_letter update_dead_letter
  find_first-upsert_dead_letter id e rows =
      find_first-upsert (has_event_id event.id) (new_dead_letter sdk id event e)
        (update_dead_letter sdk event e) rows (eq_refl event.id) (λ x h. h)

  -- One failure after another, each with the identifier drawn for it.
  record_all : List (String × Thrown) → List DeadLetter → List DeadLetter
  unfolding upsert_dead_letter
  record_all [] rows = rows
  record_all ((id, e) ∷ more) rows = record_all more (upsert_dead_letter sdk id event e rows)

  attempts_of-failed :
      (id : String) (e : Thrown) (o : Option DeadLetter)
      → attempts_of (some (failed id e o)) ≡ attempts_of o + 1
  unfolding failed new_dead_letter update_dead_letter
  attempts_of-failed id e none = omega arith
  attempts_of-failed id e (some row) = omega arith

  resolved_of-failed :
      (id : String) (e : Thrown) (o : Option DeadLetter)
      → resolved_of (some (failed id e o)) ≡ resolved_of o
  unfolding failed new_dead_letter update_dead_letter
  resolved_of-failed id e none = refl
  resolved_of-failed id e (some row) = refl

  -- However often an event fails, its dead letter counts every failure, and keeps the time at which it
  -- was resolved.
  record_all-counted :
      (failures : List (String × Thrown)) (rows : List DeadLetter)
      → let before = find_first (has_event_id event.id) rows in
        let after = find_first (has_event_id event.id) (record_all failures rows) in
        (attempts_of after ≡ attempts_of before + length failures)
        × (resolved_of after ≡ resolved_of before)
  unfolding record_all
  record_all-counted [] rows = (omega arith, refl)
  record_all-counted ((id, e) ∷ more) rows =
      let before = find_first (has_event_id event.id) rows in
      let rest = record_all-counted more (upsert_dead_letter sdk id event e rows) in
      let found = find_first-upsert_dead_letter id e rows in
      let counted = attempts_of-failed id e before in
      let kept = resolved_of-failed id e before in
      let attempts = ap attempts_of found in
      let resolved = ap resolved_of found in
      (omega (arith, rest.0, counted, attempts), rest.1 ∙ resolved ∙ kept)

  -- The event fails once after another; every failure is recorded, or its recording throws.
  pub fail_all : Env → List Thrown → World → World
  fail_all env [] w = w
  fail_all env (e ∷ failures) w = fail_all env failures (record_dead_letter sdk env event e w).1

  abbrev pub is_of_event : DeadLetter → Bool
  is_of_event = has_event_id event.id

  -- The table has a dead letter of the event, and a replay selects none of them.
  abbrev pub Unselected : List DeadLetter → Type 0
  Unselected rows =
      (any is_of_event rows ≡ true) × (any is_of_event (select is_unresolved rows) ≡ false)

  any-update_where :
      (e : Thrown) (rows : List DeadLetter)
      → any is_of_event (update_where is_of_event (update_dead_letter sdk event e) rows)
        ≡ any is_of_event rows
  unfolding update_dead_letter
  any-update_where e [] = refl
  any-update_where e (row ∷ rows) = ground (arith, any-update_where e rows)

  select-update_where :
      (e : Thrown) (rows : List DeadLetter)
      → any is_of_event
          (select is_unresolved (update_where is_of_event (update_dead_letter sdk event e) rows))
        ≡ any is_of_event (select is_unresolved rows)
  unfolding update_dead_letter
  select-update_where e [] = refl
  select-update_where e (row ∷ rows) = ground (arith, select-update_where e rows)

  upsert_dead_letter-Unselected :
      (id : String) (e : Thrown) (rows : List DeadLetter)
      → Unselected rows
      → Unselected (upsert_dead_letter sdk id event e rows)
  unfolding upsert_dead_letter
  upsert_dead_letter-Unselected id e rows (there, none_selected) =
      rw there (any-update_where e rows ∙ there, select-update_where e rows ∙ none_selected)

  record_dead_letter-Unselected :
      (env : Env) (e : Thrown) (w : World)
      → Unselected w.database.dead_letters
      → Unselected (record_dead_letter sdk env event e w).1.database.dead_letters
  unfolding record_dead_letter
  record_dead_letter-Unselected env e w h =
      prisma-split env (λ r. Unselected r.1.database.dead_letters) _ w (λ e. h)
        (upsert_dead_letter-Unselected (env.uuid w.calls) e w.database.dead_letters h)

  -- When an event has a dead letter and all of them are resolved, then however often the event fails
  -- after that, and whichever of the recordings fail, the dead letter is still in the table and no row
  -- of the event is among those that replayDeadLetters selects.
  pub fail_all-Unselected :
      (env : Env) (failures : List Thrown) (w : World)
      → Unselected w.database.dead_letters
      → Unselected (fail_all env failures w).database.dead_letters
  unfolding fail_all
  fail_all-Unselected env [] w h = h
  fail_all-Unselected env (e ∷ failures) w h =
      fail_all-Unselected env failures (record_dead_letter sdk env event e w).1
        (record_dead_letter-Unselected env e w h)
