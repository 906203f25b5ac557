-- ===== src/Indexer/Vault/Frame.antt =====
-- The vault's handlers leave the worker's state alone.
use streamgive_backend.Prelude.{ℕ, String, refl, Option, none, some, List, ℤ, arith}
use streamgive_backend.Db.{Stream, StreamEvent}
use streamgive_backend.Db.Exec.{Env, NotificationEvent}
use streamgive_backend.Db.Keeps.{Keeps, Keeps-modify, keeps_rules}
use streamgive_backend.Indexer.Event.{Sdk, ContractEvent, Native}
use streamgive_backend.Indexer.Frame.{same_worker, SameWorker-prisma, record_dead_letter-SameWorker}
use streamgive_backend.Indexer.Vault.{
  ensure_donor, ensure_ngo, date_argument, upsert_stream, update_stream, create_stream_event,
  find_stream, store_created, persist_withdraw, withdraw_active, withdraw_found, persist_cancel,
  cancel_active, cancel_found, notify_withdrawn, notify_cancelled, handle_stream_created,
  handle_withdraw, handle_cancel, handle_topic, handle_donation_vault_event, dispatch_notification,
}

pub dispatch_notification-SameWorker :
    (n : NotificationEvent) → Keeps same_worker (dispatch_notification n)
dispatch_notification-SameWorker n =
    Keeps-modify _
      (λ w. record { checkpoint = refl; ledger = refl; event_id = refl; metrics = refl })

module _ (env : Env) where
  ensure_donor-SameWorker : (a : String) → Keeps same_worker (ensure_donor env a)
  unfolding ensure_donor
  ensure_donor-SameWorker a = search (keeps_rules, SameWorker-prisma)

  ensure_ngo-SameWorker : (a : String) → Keeps same_worker (ensure_ngo env a)
  unfolding ensure_ngo
  ensure_ngo-SameWorker a = search (keeps_rules, SameWorker-prisma)

  date_argument-SameWorker : (at : Option ℕ) → Keeps same_worker (date_argument env at)
  unfolding date_argument
  date_argument-SameWorker none = search keeps_rules
  date_argument-SameWorker (some at) = search keeps_rules

  upsert_stream-SameWorker : (s : Stream) → Keeps same_worker (upsert_stream env s)
  unfolding upsert_stream
  upsert_stream-SameWorker s = search (keeps_rules, SameWorker-prisma)

  update_stream-SameWorker :
      (id : ℤ) (f : Stream → Stream) → Keeps same_worker (update_stream env id f)
  unfolding update_stream
  update_stream-SameWorker id f = SameWorker-prisma env _ (λ db. ground arith)

  pub create_stream_event-SameWorker :
      (e : StreamEvent) → Keeps same_worker (create_stream_event env e)
  unfolding create_stream_event
  create_stream_event-SameWorker e = search (keeps_rules, SameWorker-prisma)

  find_stream-SameWorker : (id : ℤ) → Keeps same_worker (find_stream env id)
  unfolding find_stream
  find_stream-SameWorker id = search (keeps_rules, SameWorker-prisma)

  ruleset frame_rules = (
    keeps_rules, dispatch_notification-SameWorker, ensure_donor-SameWorker, ensure_ngo-SameWorker,
    date_argument-SameWorker, upsert_stream-SameWorker, update_stream-SameWorker,
    create_stream_event-SameWorker, find_stream-SameWorker, record_dead_letter-SameWorker,
  )

  module _ {ScVal : Type 0} (sdk : Sdk ScVal) (event : ContractEvent ScVal) where
    store_created-SameWorker :
        (id : ℤ) (donor ngo : String) (fields : List Native)
        → Keeps same_worker (store_created env sdk event id donor ngo fields)
    unfolding store_created
    store_created-SameWorker id donor ngo fields = search frame_rules depth 30

    persist_withdraw-SameWorker :
        (id : ℤ) (a : ℤ) → Keeps same_worker (persist_withdraw env sdk event id a)
    unfolding persist_withdraw
    persist_withdraw-SameWorker id a = search frame_rules depth 20

    withdraw_active-SameWorker :
        (id : ℤ) (native : Native) → Keeps same_worker (withdraw_active env sdk event id native)
    unfolding withdraw_active
    withdraw_active-SameWorker id native =
        search (frame_rules, persist_withdraw-SameWorker) depth 20

    withdraw_found-SameWorker :
        (id : ℤ) (native : Native) (o : Option Stream)
        → Keeps same_worker (withdraw_found env sdk event id native o)
    unfolding withdraw_found
    withdraw_found-SameWorker id native none = search frame_rules depth 10
    withdraw_found-SameWorker id native (some s) = search (frame_rules, withdraw_active-SameWorker)

    persist_cancel-SameWorker :
        (id : ℤ) (fields : List Native) (a : ℤ)
        → Keeps same_worker (persist_cancel env sdk event id fields a)
    unfolding persist_cancel
    persist_cancel-SameWorker id fields a = search frame_rules depth 20

    cancel_active-SameWorker :
        (id : ℤ) (fields : List Native) → Keeps same_worker (cancel_active env sdk event id fields)
    unfolding cancel_active
    cancel_active-SameWorker id fields = search (frame_rules, persist_cancel-SameWorker) depth 20

    cancel_found-SameWorker :
        (id : ℤ) (fields : List Native) (o : Option Stream)
        → Keeps same_worker (cancel_found env sdk event id fields o)
    unfolding cancel_found
    cancel_found-SameWorker id fields none = search frame_rules depth 10
    cancel_found-SameWorker id fields (some s) = search (frame_rules, cancel_active-SameWorker)

    notify_withdrawn-SameWorker :
        (id : ℤ) (o : Option ℤ) → Keeps same_worker (notify_withdrawn env sdk event id o)
    unfolding notify_withdrawn
    notify_withdrawn-SameWorker id none = search frame_rules
    notify_withdrawn-SameWorker id (some a) = search frame_rules

    notify_cancelled-SameWorker :
        (id : ℤ) (o : Option (ℤ × ℤ)) → Keeps same_worker (notify_cancelled env sdk event id o)
    unfolding notify_cancelled
    notify_cancelled-SameWorker id none = search frame_rules
    notify_cancelled-SameWorker id (some (a, b)) = search frame_rules

    ruleset handler_rules = (
      frame_rules, store_created-SameWorker, withdraw_found-SameWorker, cancel_found-SameWorker,
      notify_withdrawn-SameWorker, notify_cancelled-SameWorker,
    )

    handle_stream_created-SameWorker : Keeps same_worker (handle_stream_created env sdk event)
    unfolding handle_stream_created
    handle_stream_created-SameWorker = search handler_rules depth 30

    handle_withdraw-SameWorker : Keeps same_worker (handle_withdraw env sdk event)
    unfolding handle_withdraw
    handle_withdraw-SameWorker = search handler_rules depth 20

    handle_cancel-SameWorker : Keeps same_worker (handle_cancel env sdk event)
    unfolding handle_cancel
    handle_cancel-SameWorker = search handler_rules depth 20

    handle_topic-SameWorker :
        (topic : String) → Keeps same_worker (handle_topic env sdk event topic)
    unfolding handle_topic
    handle_topic-SameWorker topic = search (
      keeps_rules, handle_stream_created-SameWorker, handle_withdraw-SameWorker,
      handle_cancel-SameWorker,
    )

    pub handle_donation_vault_event-SameWorker :
        Keeps same_worker (handle_donation_vault_event env sdk event)
    unfolding handle_donation_vault_event
    handle_donation_vault_event-SameWorker = search (keeps_rules, handle_topic-SameWorker)
