-- ===== src/Indexer/Vault/Undated.antt =====
-- A vault event with no `ledgerClosedAt`, as a rebuilt one is, writes no stream.
use streamgive_backend.Prelude.{ℕ, String, ◌≡◌, refl, ◌∙◌, Option, none, some, List, ℤ}
use streamgive_backend.Db.{Database, Stream}
use streamgive_backend.Db.Exec.{Result, Thrown, Env, Exec, World, NotificationEvent, ◌>>=◌, prisma}
use streamgive_backend.Db.Keeps.{
  Relation, Keeps, Keeps-prisma, Keeps-modify, Keeps-throw, keeps_rules,
}
use streamgive_backend.Indexer.Event.{Sdk, ContractEvent, Native}
use streamgive_backend.Indexer.DeadLetters.{record_dead_letter}
use streamgive_backend.Indexer.Vault.{
  ensure_donor, ensure_ngo, date_argument, find_stream, store_created, withdraw_active,
  withdraw_found, cancel_active, cancel_found, notify_withdrawn, notify_cancelled,
  handle_stream_created, handle_withdraw, handle_cancel, handle_topic, handle_donation_vault_event,
  dispatch_notification,
}

pub record SameStreams (v w : World) : Type 0 where
  pub streams : w.database.streams ≡ v.database.streams

abbrev pub same_streams : Relation
same_streams = record {
  holds = SameStreams;
  same = λ w. record { streams = refl };
  after = λ {u} {v} {w} a b. record { streams = b.streams ∙ a.streams };
  ticks = λ w. record { streams = refl };
  rolls = λ v w h. record { streams = refl };
}

pub SameStreams-prisma :
    (env : Env) {A : Type 0} (f : Database → Result A × Database)
    → ((db : Database) → (f db).1.streams ≡ db.streams)
    → Keeps same_streams (prisma env f)
SameStreams-prisma env f h = Keeps-prisma env f (λ w. record { streams = h w.database })

pub dispatch_notification-SameStreams :
    (n : NotificationEvent) → Keeps same_streams (dispatch_notification n)
dispatch_notification-SameStreams n = Keeps-modify _ (λ w. record { streams = refl })

module _ (env : Env) where
  -- What stands behind an invalid date is not run.
  invalid_date-SameStreams :
      {A : Type 0} (at : Option ℕ) (f : ℕ → Exec A)
      → at ≡ none
      → Keeps same_streams (date_argument env at >>= f)
  unfolding date_argument
  invalid_date-SameStreams none f e = Keeps-throw env.invalid_date
  invalid_date-SameStreams (some at) f e = cc

  ensure_donor-SameStreams : (a : String) → Keeps same_streams (ensure_donor env a)
  unfolding ensure_donor
  ensure_donor-SameStreams a = search (keeps_rules, SameStreams-prisma)

  ensure_ngo-SameStreams : (a : String) → Keeps same_streams (ensure_ngo env a)
  unfolding ensure_ngo
  ensure_ngo-SameStreams a = search (keeps_rules, SameStreams-prisma)

  find_stream-SameStreams : (id : ℤ) → Keeps same_streams (find_stream env id)
  unfolding find_stream
  find_stream-SameStreams id = search (keeps_rules, SameStreams-prisma)

  ruleset stream_rules = (
    keeps_rules, ensure_donor-SameStreams, ensure_ngo-SameStreams, find_stream-SameStreams,
    dispatch_notification-SameStreams,
  )

  module _ {ScVal : Type 0} (sdk : Sdk ScVal) (event : ContractEvent ScVal)
      (undated : event.ledger_closed_at ≡ none) where
    record_dead_letter-SameStreams :
        (e : Thrown) → Keeps same_streams (record_dead_letter sdk env event e)
    unfolding record_dead_letter
    record_dead_letter-SameStreams e = search (keeps_rules, SameStreams-prisma)

    store_created-SameStreams :
        (id : ℤ) (donor ngo : String) (fields : List Native)
        → Keeps same_streams (store_created env sdk event id donor ngo fields)
    unfolding store_created
    store_created-SameStreams id donor ngo fields =
        search (invalid_date-SameStreams, stream_rules) depth 20

    withdraw_active-SameStreams :
        (id : ℤ) (native : Native) → Keeps same_streams (withdraw_active env sdk event id native)
    unfolding withdraw_active
    withdraw_active-SameStreams id native = search (invalid_date-SameStreams, stream_rules)

    withdraw_found-SameStreams :
        (id : ℤ) (native : Native) (o : Option Stream)
        → Keeps same_streams (withdraw_found env sdk event id native o)
    unfolding withdraw_found
    withdraw_found-SameStreams id native none =
        search (stream_rules, record_dead_letter-SameStreams)
    withdraw_found-SameStreams id native (some s) =
        search (stream_rules, withdraw_active-SameStreams)

    cancel_active-SameStreams :
        (id : ℤ) (fields : List Native) → Keeps same_streams (cancel_active env sdk event id fields)
    unfolding cancel_active
    cancel_active-SameStreams id fields = search (invalid_date-SameStreams, stream_rules)

    cancel_found-SameStreams :
        (id : ℤ) (fields : List Native) (o : Option Stream)
        → Keeps same_streams (cancel_found env sdk event id fields o)
    unfolding cancel_found
    cancel_found-SameStreams id fields none = search (stream_rules, record_dead_letter-SameStreams)
    cancel_found-SameStreams id fields (some s) = search (stream_rules, cancel_active-SameStreams)

    notify_withdrawn-SameStreams :
        (id : ℤ) (o : Option ℤ) → Keeps same_streams (notify_withdrawn env sdk event id o)
    unfolding notify_withdrawn
    notify_withdrawn-SameStreams id none = search stream_rules
    notify_withdrawn-SameStreams id (some a) = search stream_rules

    notify_cancelled-SameStreams :
        (id : ℤ) (o : Option (ℤ × ℤ)) → Keeps same_streams (notify_cancelled env sdk event id o)
    unfolding notify_cancelled
    notify_cancelled-SameStreams id none = search stream_rules
    notify_cancelled-SameStreams id (some (a, b)) = search stream_rules

    ruleset undated_rules = (
      stream_rules, store_created-SameStreams, withdraw_found-SameStreams, cancel_found-SameStreams,
      notify_withdrawn-SameStreams, notify_cancelled-SameStreams,
    )

    handle_stream_created-SameStreams : Keeps same_streams (handle_stream_created env sdk event)
    unfolding handle_stream_created
    handle_stream_created-SameStreams = search undated_rules depth 30

    handle_withdraw-SameStreams : Keeps same_streams (handle_withdraw env sdk event)
    unfolding handle_withdraw
    handle_withdraw-SameStreams = search undated_rules depth 20

    handle_cancel-SameStreams : Keeps same_streams (handle_cancel env sdk event)
    unfolding handle_cancel
    handle_cancel-SameStreams = search undated_rules depth 20

    handle_topic-SameStreams :
        (topic : String) → Keeps same_streams (handle_topic env sdk event topic)
    unfolding handle_topic
    handle_topic-SameStreams topic = search (
      keeps_rules, handle_stream_created-SameStreams, handle_withdraw-SameStreams,
      handle_cancel-SameStreams,
    )

    pub handle_donation_vault_event-SameStreams :
        Keeps same_streams (handle_donation_vault_event env sdk event)
    unfolding handle_donation_vault_event
    handle_donation_vault_event-SameStreams = search (keeps_rules, handle_topic-SameStreams)
