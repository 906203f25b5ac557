-- ===== src/Scripts/Replay/Dates.antt =====
-- A replay rebuilds events without `ledgerClosedAt`, so it writes no stream.
use streamgive_backend.Prelude.{
  ℕ, String, ◌≡◌, refl, Bool, Option, none, List, [], ◌∷◌, arith, find_first,
}
use streamgive_backend.Db.{DeadLetter}
use streamgive_backend.Db.Exec.{Result, ok, err, Thrown, Env, Exec, World, ◌>>=◌, ◌>>◌, lift, query}
use streamgive_backend.Db.Keeps.{Keeps, Keeps-bind, Keeps-catch, Keeps-throw, keeps_rules}
use streamgive_backend.Indexer.Event.{Sdk, ContractEvent}
use streamgive_backend.Indexer.DeadLetters.{rebuild_event_from_dead_letter}
use streamgive_backend.Indexer.Vault.Undated.{same_streams, SameStreams-prisma}
use streamgive_backend.Indexer.Dispatch.{Contracts, dispatch_event, watched_contract_ids}
use streamgive_backend.Indexer.Dispatch.Undated.{dispatch_event-SameStreams}
use streamgive_backend.Scripts.Replay.{
  update_dead_letter_row, require_watched, finish, try_replay, give_up, replay_one, replay_rows,
  replay_dead_letters, has_id,
}

rebuilt_undated :
    {ScVal : Type 0} (sdk : Sdk ScVal) (row : DeadLetter) (event : ContractEvent ScVal)
    → rebuild_event_from_dead_letter sdk row ≡ ok event
    → event.ledger_closed_at ≡ none
unfolding rebuild_event_from_dead_letter
rebuilt_undated sdk row event h = ground arith

module _ (env : Env) where
  update_dead_letter_row-SameStreams :
      (id : String) (change : DeadLetter → DeadLetter)
      → Keeps same_streams (update_dead_letter_row env id change)
  unfolding update_dead_letter_row
  update_dead_letter_row-SameStreams id change = SameStreams-prisma env _ (λ db. ground arith)

  module _ (contracts : Contracts) {ScVal : Type 0} (sdk : Sdk ScVal) (watched : List String)
      (order : List DeadLetter → List DeadLetter) where
    dispatcher : ContractEvent ScVal → Exec Unit
    dispatcher = dispatch_event env contracts sdk

    require_watched-SameStreams :
        (row : DeadLetter)
        → Keeps same_streams (require_watched env sdk dispatcher watched order row)
    unfolding require_watched
    require_watched-SameStreams row = search keeps_rules

    finish-SameStreams :
        (row : DeadLetter) (current : Option DeadLetter)
        → Keeps same_streams (finish env sdk dispatcher watched order row current)
    unfolding finish
    finish-SameStreams row current = search (keeps_rules, update_dead_letter_row-SameStreams)

    give_up-SameStreams :
        (row : DeadLetter) (e : Thrown)
        → Keeps same_streams (give_up env sdk dispatcher watched order row e)
    unfolding give_up
    give_up-SameStreams row e = search (keeps_rules, update_dead_letter_row-SameStreams)

    check_again : DeadLetter → Exec Bool
    unfolding finish
    check_again row = do
      current ← query env (λ db. find_first (has_id row.id) db.dead_letters)
      finish env sdk dispatcher watched order row current

    check_again-SameStreams : (row : DeadLetter) → Keeps same_streams (check_again row)
    unfolding check_again
    check_again-SameStreams row = search (keeps_rules, SameStreams-prisma, finish-SameStreams)

    settle : DeadLetter → ContractEvent ScVal → Exec Bool
    unfolding dispatcher check_again
    settle row event = do dispatcher event; check_again row

    settle-SameStreams :
        (row : DeadLetter) (event : ContractEvent ScVal)
        → event.ledger_closed_at ≡ none
        → Keeps same_streams (settle row event)
    unfolding settle dispatcher
    settle-SameStreams row event undated =
        Keeps-bind (dispatch_event env contracts sdk event) (λ t. check_again row)
          (dispatch_event-SameStreams env contracts sdk event undated)
          (λ t. check_again-SameStreams row)

    -- What a rebuilt event is followed by: its date is missing.
    rebuilt-SameStreams :
        (row : DeadLetter) (r : Result (ContractEvent ScVal))
        → rebuild_event_from_dead_letter sdk row ≡ r
        → Keeps same_streams (lift r >>= settle row)
    rebuilt-SameStreams row (ok event) h = record {
      at = λ w. (settle-SameStreams row event (rebuilt_undated sdk row event h)).at w;
    }
    rebuilt-SameStreams row (err e) h = Keeps-throw e

    try_replay-SameStreams :
        (row : DeadLetter) → Keeps same_streams (try_replay env sdk dispatcher watched order row)
    unfolding try_replay settle check_again
    try_replay-SameStreams row =
        Keeps-bind _ _ (require_watched-SameStreams row)
          (λ t. rebuilt-SameStreams row (rebuild_event_from_dead_letter sdk row) refl)

    replay_rows-SameStreams :
        (rows : List DeadLetter) (resolved failed : ℕ)
        → Keeps same_streams (replay_rows env sdk dispatcher watched order rows resolved failed)
    unfolding replay_rows replay_one
    replay_rows-SameStreams [] resolved failed = search keeps_rules
    replay_rows-SameStreams (row ∷ rows) resolved failed =
        Keeps-bind _ _ (Keeps-catch _ _ (try_replay-SameStreams row) (give_up-SameStreams row))
          (λ done. replay_rows-SameStreams rows _ _)

    replay_dead_letters-Keeps :
        Keeps same_streams (replay_dead_letters env sdk dispatcher watched order)
    unfolding replay_dead_letters
    replay_dead_letters-Keeps = search (keeps_rules, SameStreams-prisma, replay_rows-SameStreams)

-- A replay with the indexer's own dispatcher leaves every stream row as it was, whatever the dead
-- letters hold, whether the database fails or not, and whether the replay returns or throws.
pub replay_dead_letters-same_streams :
    (env : Env) (contracts : Contracts) {ScVal : Type 0} (sdk : Sdk ScVal)
    (order : List DeadLetter → List DeadLetter) (w : World)
    → (replay_dead_letters env sdk
        (dispatch_event env contracts sdk)
        (watched_contract_ids contracts)
        order
        w).1.database.streams
      ≡ w.database.streams
unfolding dispatcher
replay_dead_letters-same_streams env contracts sdk order w =
    ((replay_dead_letters-Keeps env contracts sdk (watched_contract_ids contracts) order).at
      w).streams
