-- ===== src/Indexer/Vault/Rows.antt =====
-- Each handler of the vault keeps the rows of the streams, which only evolve.
use streamgive_backend.Prelude.{
  ◌⊎◌, inl, inr, Bool-cases, ℕ, String, ◌≡◌, refl, ◌∙◌, ap, false, Option, none, some, List, ℤ,
  find_first, find_or_create, find_first-find_or_create,
}
use streamgive_backend.Db.{Stream, StreamEvent, Database}
use streamgive_backend.Db.Exec.{Result, Env, World, Thrown, ◌>>=◌, pure, lift}
use streamgive_backend.Db.Keeps.{Keeps, Keeps-prisma, keeps_rules}
use streamgive_backend.Db.Split.{bind-with, if-split, holds-pass, holds-then}
use streamgive_backend.Indexer.Event.{Sdk, ContractEvent, Native, as_bigint, bigint_at}
use streamgive_backend.Indexer.DeadLetters.{record_dead_letter}
use streamgive_backend.Indexer.Vault.{
  has_chain_id, is_cancelled, withdraw_from_row, cancel_row, ensure_donor, ensure_ngo,
  date_argument, upsert_stream, update_stream, create_stream_event, find_stream, store_created,
  persist_withdraw, withdraw_active, persist_cancel, cancel_active, withdraw_found, cancel_found,
  notify_withdrawn, notify_cancelled, handle_stream_created, handle_withdraw, handle_cancel,
  handle_topic, handle_donation_vault_event,
}
use streamgive_backend.Indexer.Vault.Evolution.{
  SameIdentity, Evolves-refl, RowsEvolve, RowsEvolve-eq, RowsEvolve-trans, rows_evolve,
  RowsEvolve-prisma, dispatch_notification-RowsEvolve, update_stream-RowsEvolve,
  withdraw_from_row-SameIdentity, cancel_row-SameIdentity, Found, find_stream-Found,
}

module _ (env : Env) where
  ensure_donor-RowsEvolve : (a : String) → Keeps rows_evolve (ensure_donor env a)
  unfolding ensure_donor
  ensure_donor-RowsEvolve a = search (keeps_rules, RowsEvolve-prisma)

  ensure_ngo-RowsEvolve : (a : String) → Keeps rows_evolve (ensure_ngo env a)
  unfolding ensure_ngo
  ensure_ngo-RowsEvolve a = search (keeps_rules, RowsEvolve-prisma)

  create_stream_event-RowsEvolve : (e : StreamEvent) → Keeps rows_evolve (create_stream_event env e)
  unfolding create_stream_event
  create_stream_event-RowsEvolve e = search (keeps_rules, RowsEvolve-prisma)

  date_argument-RowsEvolve : (at : Option ℕ) → Keeps rows_evolve (date_argument env at)
  unfolding date_argument
  date_argument-RowsEvolve none = search keeps_rules
  date_argument-RowsEvolve (some at) = search keeps_rules

  record_dead_letter-RowsEvolve :
      {ScVal : Type 0} (sdk : Sdk ScVal) (event : ContractEvent ScVal) (e : Thrown)
      → Keeps rows_evolve (record_dead_letter sdk env event e)
  unfolding record_dead_letter
  record_dead_letter-RowsEvolve sdk event e = search (keeps_rules, RowsEvolve-prisma)

  -- A new row goes behind the others, and one that is there stays as it is.
  create-RowsEvolve :
      (new : Stream) (w : World)
      → RowsEvolve w (record w {
        database = record w.database {
          streams = (find_or_create (has_chain_id new.on_chain_id) new w.database.streams).1;
        };
      })
  create-RowsEvolve new w = record {
    row = λ id s h. (
      s,
      find_first-find_or_create (has_chain_id id) (has_chain_id new.on_chain_id) new
          w.database.streams h,
      Evolves-refl s,
    );
  }

  upsert_stream-RowsEvolve : (new : Stream) → Keeps rows_evolve (upsert_stream env new)
  unfolding upsert_stream
  upsert_stream-RowsEvolve new = Keeps-prisma env _ (create-RowsEvolve new)

  ruleset rows_rules = (
    keeps_rules, ensure_donor-RowsEvolve, ensure_ngo-RowsEvolve, create_stream_event-RowsEvolve,
    date_argument-RowsEvolve, record_dead_letter-RowsEvolve, upsert_stream-RowsEvolve,
    dispatch_notification-RowsEvolve,
  )

  module _ {ScVal : Type 0} (sdk : Sdk ScVal) (event : ContractEvent ScVal) where
    store_created-RowsEvolve :
        (id : ℤ) (donor ngo : String) (fields : List Native)
        → Keeps rows_evolve (store_created env sdk event id donor ngo fields)
    unfolding store_created
    store_created-RowsEvolve id donor ngo fields = search rows_rules depth 30

    handle_stream_created-RowsEvolve : Keeps rows_evolve (handle_stream_created env sdk event)
    unfolding handle_stream_created
    handle_stream_created-RowsEvolve = search (rows_rules, store_created-RowsEvolve) depth 30

    -- The fields of an update, at the world where the row was found.
    abbrev Same : {A : Type 0} → World → Result A × World → Type 0
    Same w (r, w') = w' ≡ w

    date_argument-Same : (at : Option ℕ) (w : World) → Same w (date_argument env at w)
    unfolding date_argument
    date_argument-Same none w = refl
    date_argument-Same (some at) w = refl

    abbrev Evolved : {A : Type 0} → World → Result A × World → Type 0
    Evolved w (r, w') = RowsEvolve w w'

    persist_withdraw-RowsEvolve :
        (id a : ℤ) → Keeps rows_evolve (persist_withdraw env sdk event id a)
    unfolding persist_withdraw
    persist_withdraw-RowsEvolve id a = search rows_rules depth 10

    persist_cancel-RowsEvolve :
        (id : ℤ) (fields : List Native) (a : ℤ)
        → Keeps rows_evolve (persist_cancel env sdk event id fields a)
    unfolding persist_cancel
    persist_cancel-RowsEvolve id fields a = search rows_rules depth 10

    module _ (id : ℤ) (s : Stream) (w : World) (live : is_cancelled s.status ≡ false)
        (found : find_first (has_chain_id id) w.database.streams ≡ some s) where
      withdraw_active-RowsEvolve :
          (native : Native) → RowsEvolve w (withdraw_active env sdk event id native w).1
      unfolding withdraw_active
      withdraw_active-RowsEvolve native =
          let last = λ (accrued : ℤ). λ (_ : Unit {0}). persist_withdraw env sdk event id accrued in
          let write = λ (accrued : ℤ).
            λ (at : ℕ). update_stream env id (withdraw_from_row accrued at) >>= last accrued in
          let dated = λ (accrued : ℤ). date_argument env event.ledger_closed_at >>= write accrued in
          holds-pass rows_evolve (lift (as_bigint native)) dated w refl (λ accrued.
            holds-pass rows_evolve (date_argument env event.ledger_closed_at) (write accrued) w
              (date_argument-Same event.ledger_closed_at w)
              (λ at.
                holds-then rows_evolve (update_stream env id (withdraw_from_row accrued at))
                  (last accrued) w
                  (update_stream-RowsEvolve id (withdraw_from_row accrued at)
                    (withdraw_from_row-SameIdentity accrued at) env s w live found)
                  (λ _. persist_withdraw-RowsEvolve id accrued)))

      cancel_active-RowsEvolve :
          (fields : List Native) → RowsEvolve w (cancel_active env sdk event id fields w).1
      unfolding cancel_active
      cancel_active-RowsEvolve fields =
          let last =
            λ (accrued : ℤ). λ (_ : Unit {0}). persist_cancel env sdk event id fields accrued in
          let write = λ (accrued : ℤ).
            λ (at : ℕ). update_stream env id (cancel_row accrued at) >>= last accrued in
          let dated = λ (accrued : ℤ). date_argument env event.ledger_closed_at >>= write accrued in
          holds-pass rows_evolve (lift (bigint_at fields 0)) dated w refl (λ accrued.
            holds-pass rows_evolve (date_argument env event.ledger_closed_at) (write accrued) w
              (date_argument-Same event.ledger_closed_at w)
              (λ at.
                holds-then rows_evolve (update_stream env id (cancel_row accrued at)) (last accrued)
                  w
                  (update_stream-RowsEvolve id (cancel_row accrued at)
                    (cancel_row-SameIdentity accrued at) env s w live found)
                  (λ _. persist_cancel-RowsEvolve id fields accrued)))

    withdraw_found-RowsEvolve :
        (id : ℤ) (native : Native) (w : World) (o : Option Stream)
        → find_first (has_chain_id id) w.database.streams ≡ o
        → RowsEvolve w (withdraw_found env sdk event id native o w).1
    unfolding withdraw_found
    withdraw_found-RowsEvolve id native w none h =
        (let k : Keeps rows_evolve (withdraw_found env sdk event id native none) =
              search rows_rules depth 10 in
            k).at
          w
    withdraw_found-RowsEvolve id native w (some s) h =
        if-split (λ r. RowsEvolve w r.1) (is_cancelled s.status) (pure none)
          (withdraw_active env sdk event id native) w (λ _. RowsEvolve-eq w w refl)
          (λ live. withdraw_active-RowsEvolve id s w live h native)

    cancel_found-RowsEvolve :
        (id : ℤ) (fields : List Native) (w : World) (o : Option Stream)
        → find_first (has_chain_id id) w.database.streams ≡ o
        → RowsEvolve w (cancel_found env sdk event id fields o w).1
    unfolding cancel_found
    cancel_found-RowsEvolve id fields w none h =
        (let k : Keeps rows_evolve (cancel_found env sdk event id fields none) =
              search rows_rules depth 10 in
            k).at
          w
    cancel_found-RowsEvolve id fields w (some s) h =
        if-split (λ r. RowsEvolve w r.1) (is_cancelled s.status) (pure none)
          (cancel_active env sdk event id fields) w (λ _. RowsEvolve-eq w w refl)
          (λ live. cancel_active-RowsEvolve id s w live h fields)

    notify-RowsEvolve :
        (id : ℤ) (o : Option ℤ) → Keeps rows_evolve (notify_withdrawn env sdk event id o)
    unfolding notify_withdrawn
    notify-RowsEvolve id none = search rows_rules
    notify-RowsEvolve id (some a) = search rows_rules

    notify-RowsEvolve_cancelled :
        (id : ℤ) (o : Option (ℤ × ℤ)) → Keeps rows_evolve (notify_cancelled env sdk event id o)
    unfolding notify_cancelled
    notify-RowsEvolve_cancelled id none = search rows_rules
    notify-RowsEvolve_cancelled id (some (a, b)) = search rows_rules

    withdraw_body-RowsEvolve :
        (id : ℤ) (native : Native)
        → Keeps rows_evolve (find_stream env id >>= withdraw_found env sdk event id native)
    withdraw_body-RowsEvolve id native = record {
      at = λ w.
          bind-with (Found id w) (λ r. RowsEvolve w r.1) (find_stream env id)
            (withdraw_found env sdk event id native) w (find_stream-Found env id w)
            (λ o v q. RowsEvolve-trans (RowsEvolve-eq w v (ap (λ (d : Database). d.streams) q.0)) (
              withdraw_found-RowsEvolve id native v o
                (ap (λ (d : Database). find_first (has_chain_id id) d.streams) q.0 ∙ q.1)))
            (λ e v q. RowsEvolve-eq w v (ap (λ (d : Database). d.streams) q));
    }

    handle_withdraw-RowsEvolve : Keeps rows_evolve (handle_withdraw env sdk event)
    unfolding handle_withdraw
    handle_withdraw-RowsEvolve =
        search (rows_rules, withdraw_body-RowsEvolve, notify-RowsEvolve) depth 12

    cancel_body-RowsEvolve :
        (id : ℤ) (fields : List Native)
        → Keeps rows_evolve (find_stream env id >>= cancel_found env sdk event id fields)
    cancel_body-RowsEvolve id fields = record {
      at = λ w.
          bind-with (Found id w) (λ r. RowsEvolve w r.1) (find_stream env id)
            (cancel_found env sdk event id fields) w (find_stream-Found env id w)
            (λ o v q. RowsEvolve-trans (RowsEvolve-eq w v (ap (λ (d : Database). d.streams) q.0)) (
              cancel_found-RowsEvolve id fields v o
                (ap (λ (d : Database). find_first (has_chain_id id) d.streams) q.0 ∙ q.1)))
            (λ e v q. RowsEvolve-eq w v (ap (λ (d : Database). d.streams) q));
    }

    handle_cancel-RowsEvolve : Keeps rows_evolve (handle_cancel env sdk event)
    unfolding handle_cancel
    handle_cancel-RowsEvolve =
        search (rows_rules, cancel_body-RowsEvolve, notify-RowsEvolve_cancelled) depth 12

    handle_topic-RowsEvolve :
        (topic : String) → Keeps rows_evolve (handle_topic env sdk event topic)
    unfolding handle_topic
    handle_topic-RowsEvolve topic = search (
      keeps_rules, handle_stream_created-RowsEvolve, handle_withdraw-RowsEvolve,
      handle_cancel-RowsEvolve,
    )

    pub handle_donation_vault_event-RowsEvolve :
        Keeps rows_evolve (handle_donation_vault_event env sdk event)
    unfolding handle_donation_vault_event
    handle_donation_vault_event-RowsEvolve = search (keeps_rules, handle_topic-RowsEvolve)

    -- Whatever vault event is handled, and whether the handler returns or throws, a stream row that
    -- was there still is; its identifiers, parties, token and creation are the same, and if it was
    -- cancelled, all of it is.
    pub handle_donation_vault_event-Evolved :
        (w : World) (id : ℤ) (s : Stream)
        → find_first (has_chain_id id) w.database.streams ≡ some s
        → let w' = (handle_donation_vault_event env sdk event w).1 in
          (t : Stream) × (find_first (has_chain_id id) w'.database.streams ≡ some t)
          × SameIdentity s t
          × ((is_cancelled s.status ≡ false) ⊎ (t ≡ s))
    handle_donation_vault_event-Evolved w id s h =
        let (t, found, e) = (handle_donation_vault_event-RowsEvolve.at w).row id s h in
        (
          t,
          found,
          e.identity,
          elim (Bool-cases (is_cancelled s.status)) [
            | inl ended ↦ inr (e.final ended)
            | inr live ↦ inl live
          ],
        )
