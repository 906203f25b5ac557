-- ===== src/Scripts/Replay.antt =====
-- src/scripts/replayDeadLetters.ts: dispatching every unresolved dead letter once more.
pub mod Counts
pub mod Dates
use streamgive_backend.Prelude.{
  ℕ, suc, ◌+◌, String, Bool, true, false, not, Option, none, some, List, [], ◌∷◌, ◌==◌, any, ltb,
  find_first, select, update_where, ◌<>◌, length, if◌then◌else◌,
}
use streamgive_backend.Db.{DeadLetter}
use streamgive_backend.Db.Exec.{
  Result, ok, err, Thrown, error, plain_error, Env, Exec, pure, throw, lift, ◌>>=◌, ◌>>◌, gets,
  catch, query, prisma, record_not_found,
}
use streamgive_backend.Indexer.Event.{Sdk, ContractEvent}
use streamgive_backend.Indexer.DeadLetters.{describe_error, rebuild_event_from_dead_letter}

pub record ReplayReport : Type 0 where
  pub attempted : ℕ
  pub resolved : ℕ
  pub failed : ℕ

abbrev pub is_unresolved : DeadLetter → Bool
is_unresolved row = elim row.resolved_at [ none ↦ true | some at ↦ false ]

abbrev pub has_id : String → DeadLetter → Bool
has_id id row = row.id == id

-- `deadLetter.contractId ?? '<none>'`
abbrev shown_contract : Option String → String
shown_contract none = "<none>"
shown_contract (some id) = id

abbrev pub is_watched : List String → Option String → Bool
is_watched watched none = false
is_watched watched (some id) = any (λ other. other == id) watched

-- `current !== null && current.attempts > deadLetter.attempts`
abbrev pub has_failed_again : ℕ → Option DeadLetter → Bool
has_failed_again attempts none = false
has_failed_again attempts (some current) = ltb attempts current.attempts

-- `new Date()`
abbrev resolve_row : ℕ → DeadLetter → DeadLetter
resolve_row now row = record row { resolved_at = some now; attempts = suc row.attempts }

abbrev fail_row : Thrown → DeadLetter → DeadLetter
fail_row e row = record row { error = describe_error e; attempts = suc row.attempts }

module _ (env : Env) where
  pub update_dead_letter_row : String → (DeadLetter → DeadLetter) → Exec Unit
  update_dead_letter_row id change = prisma env λ db.
      if any (has_id id) db.dead_letters
      then (ok tt, record db { dead_letters = update_where (has_id id) change db.dead_letters })
      else (err record_not_found, db)

  -- `order` is the database's sorting by ledger and event id; `dispatcher` is `dispatchEvent`, or
  -- what the options name.
  module _ {ScVal : Type 0} (sdk : Sdk ScVal) (dispatcher : ContractEvent ScVal → Exec Unit)
      (watched : List String) (order : List DeadLetter → List DeadLetter) where
    pub require_watched : DeadLetter → Exec Unit
    require_watched row =
        if is_watched watched row.contract_id
        then pure tt
        else throw (
            error plain_error "Error"
              ("contract "
                <> shown_contract row.contract_id
                <> " is not one of the currently watched contracts")
              none)

    pub finish : DeadLetter → Option DeadLetter → Exec Bool
    unfolding update_dead_letter_row
    finish row current = if has_failed_again row.attempts current then pure false else (do
      n ← gets (λ w. w.calls)
      update_dead_letter_row row.id (resolve_row (env.now n))
      pure true)

    -- The `try` block: `true` counts as resolved, `false` as failed.
    pub try_replay : DeadLetter → Exec Bool
    unfolding require_watched finish
    try_replay row = do
      require_watched row
      event ← lift (rebuild_event_from_dead_letter sdk row)
      dispatcher event
      current ← query env (λ db. find_first (has_id row.id) db.dead_letters)
      finish row current

    pub give_up : DeadLetter → Thrown → Exec Bool
    unfolding update_dead_letter_row
    give_up row e = do update_dead_letter_row row.id (fail_row e); pure false

    pub replay_one : DeadLetter → Exec Bool
    unfolding try_replay give_up
    replay_one row = catch (try_replay row) (give_up row)

    pub replay_rows : List DeadLetter → ℕ → ℕ → Exec (ℕ × ℕ)
    replay_rows [] resolved failed = pure (resolved, failed)
    replay_rows (row ∷ rows) resolved failed = do
      done ← replay_one row
      replay_rows rows (if done then resolved + 1 else resolved)
          (if done then failed else failed + 1)

    abbrev pub report : ℕ → ℕ × ℕ → ReplayReport
    report attempted (resolved, failed) = record {
      attempted = attempted;
      resolved = resolved;
      failed = failed;
    }

    unfoldable pub replay_dead_letters : Exec ReplayReport
    replay_dead_letters = do
      rows ← query env (λ db. order (select is_unresolved db.dead_letters))
      counts ← replay_rows rows 0 0
      pure (report (length rows) counts)
