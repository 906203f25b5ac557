-- ===== src/Indexer/Vault/Effects.antt =====
-- What a withdrawal and a cancellation write for a stream that is active.
use streamgive_backend.Prelude.{
  String, ◌⊎◌, inl, inr, ≤ℤ-total, ℕ, ◌≡◌, refl, ◌∙◌, ap, true, false, none, some, [], ◌∷◌, ◌++◌, ℤ,
  pos, ◌+ℤ◌, ◌≤ℤ◌, find_first, get_elem?, update_where, any_of_find_first, find_first-update_where,
  suc, -ℤ_parts, int_laws, arith,
}
use mathlib.Core.Option
use streamgive_backend.Db.{Stream, cancelled, Payload}
use streamgive_backend.Db.Exec.{
  ok, Env, World, stream_withdrawn, stream_cancelled, prisma, transaction,
}
use streamgive_backend.Indexer.Event.{Sdk, ContractEvent, bigint, vec, item, end}
use streamgive_backend.Indexer.Vault.{
  has_chain_id, is_cancelled, withdraw_from_row, handle_withdraw, cancel_row, handle_cancel,
}

-- The inputs of a withdrawal that the handler acts on, with the time and the hash of its transaction.
pub record WithdrawalOf {ScVal : Type 0} (sdk : Sdk ScVal) (event : ContractEvent ScVal)
    (id accrued : ℤ) (at : ℕ) (s : Stream) (w : World) : Type 0 where
  pub topic : sdk.sc_val_to_native (get_elem? event.topic 1) ≡ ok (bigint id)
  pub amount : sdk.sc_val_to_native event.value ≡ ok (bigint accrued)
  pub closed : event.ledger_closed_at ≡ some at
  pub hashed : (tx_hash : String) × (event.tx_hash ≡ some tx_hash)
  pub found : find_first (has_chain_id id) w.database.streams ≡ some s
  pub live : is_cancelled s.status ≡ false

pub record Withdrawn {ScVal : Type 0} (event : ContractEvent ScVal) (id accrued : ℤ) (at : ℕ)
    (w w' : World) : Type 0 where
  pub streams :
      w'.database.streams
      ≡ update_where (has_chain_id id) (withdraw_from_row accrued at) w.database.streams
  pub logged :
      w'.database.stream_events
      ≡ w.database.stream_events
        ++ record {
          stream_id = some id;
          ledger = event.ledger;
          tx_hash = event.tx_hash;
          payload = Payload.withdraw accrued;
        }
          ∷ []
  pub notified : w'.dispatched ≡ w.dispatched ++ stream_withdrawn event.id id accrued ∷ []

pub record CancellationOf {ScVal : Type 0} (sdk : Sdk ScVal) (event : ContractEvent ScVal)
    (id accrued refund : ℤ) (at : ℕ) (s : Stream) (w : World) : Type 0 where
  pub topic : sdk.sc_val_to_native (get_elem? event.topic 1) ≡ ok (bigint id)
  pub amounts :
      sdk.sc_val_to_native event.value ≡ ok (vec (item (bigint accrued) (item (bigint refund) end)))
  pub closed : event.ledger_closed_at ≡ some at
  pub hashed : (tx_hash : String) × (event.tx_hash ≡ some tx_hash)
  pub found : find_first (has_chain_id id) w.database.streams ≡ some s
  pub live : is_cancelled s.status ≡ false

pub record CancelledBy {ScVal : Type 0} (event : ContractEvent ScVal) (id accrued refund : ℤ)
    (at : ℕ) (w w' : World) : Type 0 where
  pub streams :
      w'.database.streams
      ≡ update_where (has_chain_id id) (cancel_row accrued at) w.database.streams
  pub logged :
      w'.database.stream_events
      ≡ w.database.stream_events
        ++ record {
          stream_id = some id;
          ledger = event.ledger;
          tx_hash = event.tx_hash;
          payload = Payload.cancel accrued refund;
        }
          ∷ []
  pub notified : w'.dispatched ≡ w.dispatched ++ stream_cancelled event.id id accrued refund ∷ []

module _ (env : Env) {ScVal : Type 0} (sdk : Sdk ScVal) (event : ContractEvent ScVal)
    (id accrued : ℤ) (at : ℕ) (s : Stream) (w : World) where
  -- A withdrawal from an active stream that returns has updated that stream's row by
  -- `withdraw_from_row`, has logged one event and has dispatched one notification.
  pub handle_withdraw-Withdrawn :
      WithdrawalOf sdk event id accrued at s w
      → (handle_withdraw env sdk event w).0 ≡ ok tt
      → Withdrawn event id accrued at w (handle_withdraw env sdk event w).1
  unfolding handle_withdraw prisma transaction
  handle_withdraw-Withdrawn of h =
      ground (arith, of.hashed.1, any_of_find_first (has_chain_id id) w.database.streams of.found)

  -- Without a database fault it returns.
  pub handle_withdraw_returns :
      WithdrawalOf sdk event id accrued at s w
      → ((n : ℕ) → env.fault n ≡ none)
      → (handle_withdraw env sdk event w).0 ≡ ok tt
  unfolding handle_withdraw prisma transaction
  handle_withdraw_returns of quiet =
      let n = w.calls in
      ground (
        arith,
        of.hashed.1,
        any_of_find_first (has_chain_id id) w.database.streams of.found,
        quiet n,
        quiet (suc n),
        quiet (suc (suc n)),
        quiet (suc (suc (suc n))),
      )

  module _ (refund : ℤ) where
    pub handle_cancel-CancelledBy :
        CancellationOf sdk event id accrued refund at s w
        → (handle_cancel env sdk event w).0 ≡ ok tt
        → CancelledBy event id accrued refund at w (handle_cancel env sdk event w).1
    unfolding handle_cancel prisma transaction
    handle_cancel-CancelledBy of h =
        ground (arith, of.hashed.1, any_of_find_first (has_chain_id id) w.database.streams of.found)

    pub handle_cancel_returns :
        CancellationOf sdk event id accrued refund at s w
        → ((n : ℕ) → env.fault n ≡ none)
        → (handle_cancel env sdk event w).0 ≡ ok tt
    unfolding handle_cancel prisma transaction
    handle_cancel_returns of quiet =
        let n = w.calls in
        ground (
          arith,
          of.hashed.1,
          any_of_find_first (has_chain_id id) w.database.streams of.found,
          quiet n,
          quiet (suc n),
          quiet (suc (suc n)),
          quiet (suc (suc (suc n))),
        )

balance_cases :
    (accrued : ℤ) (at : ℕ) (s : Stream)
    → let t = withdraw_from_row accrued at s in
      ((accrued ≤ℤ s.balance) × (t.balance +ℤ t.withdrawn ≡ s.balance +ℤ s.withdrawn))
      ⊎ ((s.balance ≤ℤ accrued) × (t.balance ≡ pos 0))
unfolding withdraw_from_row
balance_cases accrued at s = elim (≤ℤ-total accrued s.balance) [
  | inl covered ↦ inl (covered, grind int_laws)
  | inr short ↦ inr (short, ground (arith, -ℤ_parts s.balance accrued))
]

withdraw_from_row-keeps_id :
    (id accrued : ℤ) (at : ℕ) (x : Stream)
    → has_chain_id id x ≡ true
    → has_chain_id id (withdraw_from_row accrued at x) ≡ true
unfolding withdraw_from_row
withdraw_from_row-keeps_id id accrued at x h = h

cancel_row-keeps_id :
    (id accrued : ℤ) (at : ℕ) (x : Stream)
    → has_chain_id id x ≡ true
    → has_chain_id id (cancel_row accrued at x) ≡ true
unfolding cancel_row
cancel_row-keeps_id id accrued at x h = h

-- The row of a stream after a withdrawal.
pub record Settled (accrued : ℤ) (s t : Stream) : Type 0 where
  pub withdrawn : t.withdrawn ≡ s.withdrawn +ℤ accrued
  pub balance :
      ((accrued ≤ℤ s.balance) × (t.balance +ℤ t.withdrawn ≡ s.balance +ℤ s.withdrawn))
      ⊎ ((s.balance ≤ℤ accrued) × (t.balance ≡ pos 0))
  pub live : t.status ≡ s.status

module _ (env : Env) {ScVal : Type 0} (sdk : Sdk ScVal) (event : ContractEvent ScVal)
    (id accrued : ℤ) (at : ℕ) (s : Stream) (w : World) where
  -- When the database does not fail, a `withdraw` event with the hash of its transaction, for a known stream that is not cancelled is
  -- handled without a throw, and the stream's row has the amount added to `withdrawn`. If the
  -- balance covers it, balance plus withdrawn is unchanged, and if not, the balance is 0. One event
  -- row is appended, and one notification is dispatched.
  pub handle_withdraw-Settled :
      WithdrawalOf sdk event id accrued at s w
      → ((n : ℕ) → env.fault n ≡ none)
      → let (r, w') = handle_withdraw env sdk event w in
        (r ≡ ok tt)
        × (t : Stream) × (find_first (has_chain_id id) w'.database.streams ≡ some t)
        × Settled accrued s t
        × Withdrawn event id accrued at w w'
  handle_withdraw-Settled of quiet =
      let returned = handle_withdraw_returns env sdk event id accrued at s w of quiet in
      let done = handle_withdraw-Withdrawn env sdk event id accrued at s w of returned in
      let found =
        find_first-update_where (has_chain_id id) (withdraw_from_row accrued at) w.database.streams
          (withdraw_from_row-keeps_id id accrued at) in
      (
        returned,
        withdraw_from_row accrued at s,
        ap (find_first (has_chain_id id)) done.streams
            ∙ found
            ∙ ap (Option.map (withdraw_from_row accrued at)) of.found,
        record {
          withdrawn = unfold withdraw_from_row in refl;
          balance = balance_cases accrued at s;
          live = unfold withdraw_from_row in refl;
        },
        done,
      )

  -- When the database does not fail, a `cancel` event with the hash of its transaction, for a known stream that is not cancelled is
  -- handled without a throw, and the stream's row is cancelled, with balance and rate 0, the rate
  -- kept in `lastRate` and the settled amount added to `withdrawn`. One event row is appended, and
  -- one notification is dispatched.
  pub handle_cancel-Cancelled :
      (refund : ℤ)
      → CancellationOf sdk event id accrued refund at s w
      → ((n : ℕ) → env.fault n ≡ none)
      → let (r, w') = handle_cancel env sdk event w in
        (r ≡ ok tt)
        × (t : Stream) × (find_first (has_chain_id id) w'.database.streams ≡ some t)
        × ((t.status ≡ cancelled)
            × (t.balance ≡ pos 0)
            × (t.rate ≡ pos 0)
            × (t.last_rate ≡ some s.rate)
            × (t.withdrawn ≡ s.withdrawn +ℤ accrued))
        × CancelledBy event id accrued refund at w w'
  unfolding cancel_row
  handle_cancel-Cancelled refund of quiet =
      let returned = handle_cancel_returns env sdk event id accrued at s w refund of quiet in
      let done = handle_cancel-CancelledBy env sdk event id accrued at s w refund of returned in
      let found =
        find_first-update_where (has_chain_id id) (cancel_row accrued at) w.database.streams
          (cancel_row-keeps_id id accrued at) in
      (
        returned,
        cancel_row accrued at s,
        ap (find_first (has_chain_id id)) done.streams
            ∙ found
            ∙ ap (Option.map (cancel_row accrued at)) of.found,
        (refl, refl, refl, refl, refl),
        done,
      )
