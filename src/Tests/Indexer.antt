-- ===== src/Tests/Indexer.antt =====
-- The theorems on the indexer, at a withdrawal and a cancellation of an active stream, an event that
-- does not decode, and an RPC that is behind the checkpoint.
use streamgive_backend.Prelude.{
  ℕ, ◌≡◌, refl, ap, ◌≤◌, min, ◌*◌, none, some, [], ◌∷◌, pos, ◌+ℤ◌, ◌⊎◌, find_first, arith, false,
}
use streamgive_backend.Db.{Stream, cancelled}
use streamgive_backend.Db.Exec.{Result, ok, World, object, transaction, prisma}
use streamgive_backend.Indexer.Event.{Native}
use streamgive_backend.Indexer.DeadLetters.Attempts.{Unselected, fail_all, fail_all-Unselected}
use streamgive_backend.Indexer.Vault.{
  has_chain_id, is_cancelled, handle_withdraw, handle_cancel, handle_donation_vault_event,
}
use streamgive_backend.Indexer.Vault.Evolution.{SameIdentity}
use streamgive_backend.Indexer.Vault.Rows.{handle_donation_vault_event-Evolved}
use streamgive_backend.Indexer.Vault.Effects.{
  WithdrawalOf, Settled, Withdrawn, CancellationOf, CancelledBy, handle_withdraw-Settled,
  handle_cancel-Cancelled,
}
use streamgive_backend.Indexer.Vault.Failing.{Untouched}
use streamgive_backend.Indexer.Vault.Atomic.{handle_donation_vault_event-Untouched}
use streamgive_backend.Indexer.Dispatch.{dispatch_event}
use streamgive_backend.Indexer.Dispatch.Frame.{dispatch_event-Keeps}
use streamgive_backend.Indexer.Worker.{backoff_delay_ms, Config, Rpc, process_events, poll_once}
use streamgive_backend.Indexer.Worker.Backoff.{backoff_delay_ms_doubles}
use streamgive_backend.Indexer.Worker.Progress.{Progress, process_events-Progress}
use streamgive_backend.Indexer.Worker.Poll.{InSync, poll_once-InSync, poll_once_rewinds}
use streamgive_backend.Tests.Fixtures.{
  dead_letter, sdk, quiet_env, stream, world, contracts, withdraw_event, cancel_event, broken_event,
}

handle_donation_vault_event-Evolved_example :
    let w' = (handle_donation_vault_event quiet_env sdk cancel_event world).1 in
    (t : Stream) × (find_first (has_chain_id (pos 7)) w'.database.streams ≡ some t)
    × SameIdentity stream t
    × ((is_cancelled stream.status ≡ false) ⊎ (t ≡ stream))
handle_donation_vault_event-Evolved_example =
    handle_donation_vault_event-Evolved quiet_env sdk cancel_event world (pos 7) stream refl

withdrawal : WithdrawalOf sdk withdraw_event (pos 7) (pos 40) 1000 stream world
withdrawal = record {
  topic = refl;
  amount = refl;
  closed = refl;
  hashed = ("tx", refl);
  found = refl;
  live = refl;
}

handle_withdraw-Settled_example :
    let (r, w') = handle_withdraw quiet_env sdk withdraw_event world in
    (r ≡ ok tt)
    × (t : Stream) × (find_first (has_chain_id (pos 7)) w'.database.streams ≡ some t)
    × Settled (pos 40) stream t
    × Withdrawn withdraw_event (pos 7) (pos 40) 1000 world w'
handle_withdraw-Settled_example =
    handle_withdraw-Settled quiet_env sdk withdraw_event (pos 7) (pos 40) 1000 stream world
      withdrawal (λ n. refl)

cancellation : CancellationOf sdk cancel_event (pos 7) (pos 30) (pos 70) 1000 stream world
cancellation = record {
  topic = refl;
  amounts = refl;
  closed = refl;
  hashed = ("tx", refl);
  found = refl;
  live = refl;
}

handle_cancel-Cancelled_example :
    let (r, w') = handle_cancel quiet_env sdk cancel_event world in
    (r ≡ ok tt)
    × (t : Stream) × (find_first (has_chain_id (pos 7)) w'.database.streams ≡ some t)
    × ((t.status ≡ cancelled)
        × (t.balance ≡ pos 0)
        × (t.rate ≡ pos 0)
        × (t.last_rate ≡ some stream.rate)
        × (t.withdrawn ≡ stream.withdrawn +ℤ pos 30))
    × CancelledBy cancel_event (pos 7) (pos 30) (pos 70) 1000 world w'
handle_cancel-Cancelled_example =
    handle_cancel-Cancelled quiet_env sdk cancel_event (pos 7) (pos 30) 1000 stream world (pos 70)
      cancellation (λ n. refl)

handle_donation_vault_event-Untouched_example : Untouched world (record world { calls = 1 })
unfolding handle_donation_vault_event transaction prisma
handle_donation_vault_event-Untouched_example =
    handle_donation_vault_event-Untouched quiet_env sdk broken_event world refl

-- The dead letter of the event was resolved, and the event fails twice.
abbrev resolved_world : World
resolved_world = record world {
  database = record world.database {
    dead_letters = record dead_letter { event_id = "e21"; resolved_at = some 4 } ∷ [];
  };
}

fail_all-Unselected_example :
    Unselected sdk withdraw_event
      (fail_all sdk withdraw_event quiet_env
        (object "x" ∷ object "y" ∷ [])
        resolved_world).database.dead_letters
fail_all-Unselected_example =
    fail_all-Unselected sdk withdraw_event quiet_env (object "x" ∷ object "y" ∷ []) resolved_world
      (refl, refl)

process_events-Progress_example :
    let events = withdraw_event ∷ broken_event ∷ cancel_event ∷ [] in
    Progress events world
      (process_events quiet_env sdk (dispatch_event quiet_env contracts sdk) events world)
process_events-Progress_example =
    process_events-Progress quiet_env sdk (dispatch_event quiet_env contracts sdk)
      (dispatch_event-Keeps quiet_env contracts sdk)
      (withdraw_event ∷ broken_event ∷ cancel_event ∷ []) world

abbrev config : Config
config = record {
  watched = "REGISTRY" ∷ "VAULT" ∷ [];
  start_ledger = none;
  max_events_per_poll = none;
}

-- An RPC node that is at ledger 15 and has no events.
abbrev rpc_behind : Rpc Native
rpc_behind = record { latest_ledger = ok 15; get_events = λ request. ok [] }

abbrev rewound : World
rewound =
    (poll_once quiet_env sdk (dispatch_event quiet_env contracts sdk) config rpc_behind world).1

returned :
    poll_once quiet_env sdk (dispatch_event quiet_env contracts sdk) config rpc_behind world
    ≡ (ok tt, rewound)
returned =
    ap (λ (x : Result Unit). (x, rewound))
      (poll_once_rewinds quiet_env sdk (dispatch_event quiet_env contracts sdk) config rpc_behind
        world 20 15 "e20" (λ h. ground (arith, h)) refl refl refl (omega arith) (λ request. refl)
        (λ n. refl)).0

poll_once-InSync_example : InSync rewound
poll_once-InSync_example =
    poll_once-InSync quiet_env sdk (dispatch_event quiet_env contracts sdk) config rpc_behind world
      refl returned

backoff_delay_ms_doubles_example :
    (delay : ℕ) × (backoff_delay_ms 5000 0 ≡ some 5000)
    × (backoff_delay_ms 5000 1 ≡ some (min 5000 300000))
    × (backoff_delay_ms 5000 7 ≡ some delay)
    × (backoff_delay_ms 5000 8 ≡ some (min (2 * delay) 300000))
    × (delay ≤ 300000)
    × (min 5000 300000 ≤ delay)
backoff_delay_ms_doubles_example = backoff_delay_ms_doubles 5000 6 (omega arith)
