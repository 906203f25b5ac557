-- ===== src/Indexer/Vault.antt =====
-- src/indexer/handlers/donationVault.ts: the donation vault's events.
pub mod Frame
pub mod Evolution
pub mod Rows
pub mod Effects
pub mod Failing
pub mod Atomic
pub mod Undated
use streamgive_backend.Prelude.{
  ℕ, String, Bool, true, false, Option, none, some, List, [], ◌∷◌, ◌++◌, ◌==◌, ℤ, pos, ◌+ℤ◌, ◌-ℤ◌,
  ltb_ℤ, eqb_ℤ, any, get_elem?, find_first, find_or_create, update_where, if◌then◌else◌, show_ℤ,
  ◌<>◌,
}
use streamgive_backend.Db.{
  Donor, Ngo, Stream, StreamStatus, active, cancelled, StreamEvent, Payload,
}
use streamgive_backend.Db.Exec.{
  ok, err, Thrown, error, plain_error, NotificationEvent, stream_created, stream_withdrawn,
  stream_cancelled, Env, Exec, pure, lift, ◌>>=◌, ◌>>◌, gets, modify, prisma, query, execute,
  transaction, record_not_found, given, throw,
}
use streamgive_backend.Indexer.Event.{
  Native, Sdk, ContractEvent, as_bigint, as_items, bigint_at, string_at,
}
use streamgive_backend.Indexer.DeadLetters.{record_dead_letter}

abbrev pub has_address : String → Donor → Bool
has_address address d = d.address == address

abbrev pub has_owner : String → Ngo → Bool
has_owner owner_address n = n.owner_address == owner_address

abbrev pub has_chain_id : ℤ → Stream → Bool
has_chain_id id s = eqb_ℤ s.on_chain_id id

abbrev pub is_cancelled : StreamStatus → Bool
is_cancelled cancelled = true
is_cancelled active = false

-- `dispatchNotification` starts a task of its own and does not throw.
abbrev pub dispatch_notification : NotificationEvent → Exec Unit
dispatch_notification n = modify (λ w. record w { dispatched = w.dispatched ++ n ∷ [] })

-- `BigInt(stream.withdrawn) + accrued`, and the balance that a withdrawal leaves, at least 0.
pub withdraw_from_row : ℤ → ℕ → Stream → Stream
withdraw_from_row accrued at row =
    let next_balance = row.balance -ℤ accrued in
    record row {
      balance = if ltb_ℤ next_balance (pos 0) then pos 0 else next_balance;
      withdrawn = row.withdrawn +ℤ accrued;
      updated_at = at;
    }

pub cancel_row : ℤ → ℕ → Stream → Stream
cancel_row accrued at row = record row {
  withdrawn = row.withdrawn +ℤ accrued;
  balance = pos 0;
  last_rate = some row.rate;
  rate = pos 0;
  status = cancelled;
  updated_at = at;
}

module _ (env : Env) where
  pub ensure_donor : String → Exec Donor
  ensure_donor address = do
    n ← gets (λ w. w.calls)
    prisma env λ db.
        let (donor, donors) =
          find_or_create (has_address address) (record { id = env.uuid n; address = address })
            db.donors in
        (ok donor, record db { donors = donors })

  -- A placeholder row for an address that never registered; a row that is there is left alone.
  pub ensure_ngo : String → Exec Ngo
  ensure_ngo owner_address = do
    n ← gets (λ w. w.calls)
    prisma env λ db.
        let (ngo, ngos) =
          find_or_create (has_owner owner_address)
            (record { id = env.uuid n; owner_address = owner_address; name = ""; verified = false })
            db.ngos in
        (ok ngo, record db { ngos = ngos })

  -- `new Date(event.ledgerClosedAt)` as an argument of a Prisma call, which rejects an invalid one.
  pub date_argument : Option ℕ → Exec ℕ
  date_argument none = lift (err env.invalid_date)
  date_argument (some at) = pure at

  pub upsert_stream : Stream → Exec Stream
  upsert_stream new = prisma env λ db.
      let (row, rows) = find_or_create (has_chain_id new.on_chain_id) new db.streams in
      (ok row, record db { streams = rows })

  -- `tx.stream.update({ where: { onChainId }, … })`
  pub update_stream : ℤ → (Stream → Stream) → Exec Unit
  update_stream id change = prisma env λ db.
      if any (has_chain_id id) db.streams
      then (ok tt, record db { streams = update_where (has_chain_id id) change db.streams })
      else (err record_not_found, db)

  -- The column of the hash is not nullable, and Prisma's client refuses a missing one.
  unfoldable pub create_stream_event : StreamEvent → Exec Unit
  create_stream_event row =
      given row.tx_hash (throw env.invalid_date)
        (λ tx_hash. execute env (λ db. record db { stream_events = db.stream_events ++ row ∷ [] }))

  pub find_stream : ℤ → Exec (Option Stream)
  find_stream id = query env (λ db. find_first (has_chain_id id) db.streams)

  module _ {ScVal : Type 0} (sdk : Sdk ScVal) (event : ContractEvent ScVal) where
    -- The transaction of `handleStreamCreated`; it returns the row of the NGO. `toString()` on the two
    -- addresses has no effect, and stands before it.
    pub store_created : ℤ → String → String → List Native → Exec Ngo
    unfolding ensure_donor ensure_ngo upsert_stream create_stream_event date_argument
    store_created on_chain_id donor_address ngo_address fields = do
      donor ← ensure_donor donor_address
      ngo ← ensure_ngo ngo_address
      token ← lift (string_at sdk fields 2)
      rate ← lift (bigint_at fields 4)
      deposit ← lift (bigint_at fields 3)
      created_at ← date_argument event.ledger_closed_at
      n ← gets (λ w. w.calls)
      upsert_stream (record {
        id = env.uuid n;
        on_chain_id = on_chain_id;
        donor_id = donor.id;
        ngo_id = ngo.id;
        token_address = token;
        rate = rate;
        last_rate = none;
        balance = deposit;
        withdrawn = pos 0;
        status = active;
        created_tx_hash = event.tx_hash;
        created_at = created_at;
        updated_at = env.now n;
      })
      create_stream_event (record {
        stream_id = some on_chain_id;
        ledger = event.ledger;
        tx_hash = event.tx_hash;
        payload = Payload.created donor_address ngo_address token deposit rate;
      })
      pure ngo

    pub handle_stream_created : Exec Unit
    unfolding store_created
    handle_stream_created = do
      on_chain_id ← lift (sdk.sc_val_to_native (get_elem? event.topic 1))
      id ← lift (as_bigint on_chain_id)
      native ← lift (sdk.sc_val_to_native event.value)
      fields ← lift (as_items native)
      donor_address ← lift (string_at sdk fields 0)
      ngo_address ← lift (string_at sdk fields 1)
      ngo ← transaction env (store_created id donor_address ngo_address fields)
      dispatch_notification (stream_created event.id id donor_address ngo.id)

    abbrev pub unknown_stream : ℤ → Thrown
    unknown_stream id = error plain_error "Error" ("unknown stream: " <> show_ℤ id) none

    pub persist_withdraw : ℤ → ℤ → Exec (Option ℤ)
    unfolding create_stream_event
    persist_withdraw id accrued = do
      create_stream_event (record {
        stream_id = some id;
        ledger = event.ledger;
        tx_hash = event.tx_hash;
        payload = Payload.withdraw accrued;
      })
      pure (some accrued)

    -- The writes for a stream that is active.
    pub withdraw_active : ℤ → Native → Exec (Option ℤ)
    unfolding update_stream persist_withdraw date_argument
    withdraw_active id native = do
      accrued ← lift (as_bigint native)
      at ← date_argument event.ledger_closed_at
      update_stream id (withdraw_from_row accrued at)
      persist_withdraw id accrued

    -- The body of `handleWithdraw`'s transaction after `findUnique`; `some accrued` sets
    -- `shouldNotify`.
    pub withdraw_found : ℤ → Native → Option Stream → Exec (Option ℤ)
    unfolding withdraw_active
    withdraw_found id native none = do
      record_dead_letter sdk env event (unknown_stream id)
      pure none
    withdraw_found id native (some stream) =
        if is_cancelled stream.status then pure none else withdraw_active id native

    pub notify_withdrawn : ℤ → Option ℤ → Exec Unit
    notify_withdrawn id none = pure tt
    notify_withdrawn id (some accrued) =
        dispatch_notification (stream_withdrawn event.id id accrued)

    pub handle_withdraw : Exec Unit
    unfolding find_stream withdraw_found notify_withdrawn
    handle_withdraw = do
      on_chain_id ← lift (sdk.sc_val_to_native (get_elem? event.topic 1))
      id ← lift (as_bigint on_chain_id)
      native ← lift (sdk.sc_val_to_native event.value)
      done ← transaction env (do stream ← find_stream id; withdraw_found id native stream)
      notify_withdrawn id done

    -- The same for `handleCancel`; the result holds the settled amount and the refund.
    pub persist_cancel : ℤ → List Native → ℤ → Exec (Option (ℤ × ℤ))
    unfolding create_stream_event
    persist_cancel id fields accrued = do
      refund ← lift (bigint_at fields 1)
      create_stream_event (record {
        stream_id = some id;
        ledger = event.ledger;
        tx_hash = event.tx_hash;
        payload = Payload.cancel accrued refund;
      })
      pure (some (accrued, refund))

    pub cancel_active : ℤ → List Native → Exec (Option (ℤ × ℤ))
    unfolding update_stream persist_cancel date_argument
    cancel_active id fields = do
      accrued ← lift (bigint_at fields 0)
      at ← date_argument event.ledger_closed_at
      update_stream id (cancel_row accrued at)
      persist_cancel id fields accrued

    pub cancel_found : ℤ → List Native → Option Stream → Exec (Option (ℤ × ℤ))
    unfolding cancel_active
    cancel_found id fields none = do record_dead_letter sdk env event (unknown_stream id); pure none
    cancel_found id fields (some stream) =
        if is_cancelled stream.status then pure none else cancel_active id fields

    pub notify_cancelled : ℤ → Option (ℤ × ℤ) → Exec Unit
    notify_cancelled id none = pure tt
    notify_cancelled id (some (accrued, refund)) =
        dispatch_notification (stream_cancelled event.id id accrued refund)

    pub handle_cancel : Exec Unit
    unfolding find_stream cancel_found notify_cancelled
    handle_cancel = do
      on_chain_id ← lift (sdk.sc_val_to_native (get_elem? event.topic 1))
      id ← lift (as_bigint on_chain_id)
      native ← lift (sdk.sc_val_to_native event.value)
      fields ← lift (as_items native)
      done ← transaction env (do stream ← find_stream id; cancel_found id fields stream)
      notify_cancelled id done

    -- `topup`, `ratemod` and every other topic fall through.
    pub handle_topic : String → Exec Unit
    unfolding handle_stream_created handle_withdraw handle_cancel
    handle_topic topic =
        if topic == "created"
        then handle_stream_created
        else if topic == "withdraw"
        then handle_withdraw
        else if topic == "cancel"
        then handle_cancel
        else pure tt

    -- A topic that is no string matches no case.
    abbrev topic_text : Native → String
    topic_text (Native.text topic) = topic
    topic_text n = ""

    unfoldable pub handle_donation_vault_event : Exec Unit
    unfolding handle_topic
    handle_donation_vault_event = do
      topic ← lift (sdk.sc_val_to_native (get_elem? event.topic 0))
      handle_topic (topic_text topic)
