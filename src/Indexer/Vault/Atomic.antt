-- ===== src/Indexer/Vault/Atomic.antt =====
-- A handler of the vault that throws has changed nothing but dead letters.
use streamgive_backend.Prelude.{String, ◌≡◌, refl, Option, none, some, List, ℤ, get_elem?, arith}
use streamgive_backend.Db.{Ngo}
use streamgive_backend.Db.Exec.{
  err, Env, Exec, World, Thrown, transaction, ◌>>=◌, lift, stream_created,
}
use streamgive_backend.Db.Keeps.{Keeps, keeps_rules}
use streamgive_backend.Indexer.Event.{Sdk, ContractEvent, Native, string_at, as_bigint, as_items}
use streamgive_backend.Indexer.Vault.{
  handle_withdraw, handle_cancel, handle_stream_created, handle_topic, topic_text,
  handle_donation_vault_event, store_created, find_stream, withdraw_found, cancel_found,
  notify_withdrawn, notify_cancelled, dispatch_notification,
}
use streamgive_backend.Indexer.Vault.Failing.{
  Untouched, same_dispatched, Failing, transaction-Untouched, Succeeds, fail-pass, fail-then,
  find_stream-SameDispatched, store_created-SameDispatched, withdraw_found-SameDispatched,
  cancel_found-SameDispatched,
}

module _ (env : Env) where
  module _ {ScVal : Type 0} (sdk : Sdk ScVal) (event : ContractEvent ScVal) where
    notify_withdrawn-Succeeds :
        (id : ℤ) (o : Option ℤ) (v : World) → Succeeds (notify_withdrawn env sdk event id o v)
    unfolding notify_withdrawn
    notify_withdrawn-Succeeds id none v = tt
    notify_withdrawn-Succeeds id (some a) v = tt

    notify_cancelled-Succeeds :
        (id : ℤ) (o : Option (ℤ × ℤ)) (v : World) → Succeeds (notify_cancelled env sdk event id o v)
    unfolding notify_cancelled
    notify_cancelled-Succeeds id none v = tt
    notify_cancelled-Succeeds id (some (a, b)) v = tt

    withdraw_body-SameDispatched :
        (id : ℤ) (native : Native)
        → Keeps same_dispatched (find_stream env id >>= withdraw_found env sdk event id native)
    withdraw_body-SameDispatched id native =
        search (keeps_rules, find_stream-SameDispatched, withdraw_found-SameDispatched)

    withdraw_rest-Failing :
        (id : ℤ) (native : Native) (w : World)
        → Failing w (
            (transaction env (find_stream env id >>= withdraw_found env sdk event id native)
                >>= notify_withdrawn env sdk event id)
              w)
    withdraw_rest-Failing id native w =
        fail-then (transaction env (find_stream env id >>= withdraw_found env sdk event id native))
          (notify_withdrawn env sdk event id) w
          (transaction-Untouched env (find_stream env id >>= withdraw_found env sdk event id native)
            w (withdraw_body-SameDispatched id native))
          (notify_withdrawn-Succeeds id)

    cancel_body-SameDispatched :
        (id : ℤ) (fields : List Native)
        → Keeps same_dispatched (find_stream env id >>= cancel_found env sdk event id fields)
    cancel_body-SameDispatched id fields =
        search (keeps_rules, find_stream-SameDispatched, cancel_found-SameDispatched)

    cancel_rest-Failing :
        (id : ℤ) (fields : List Native) (w : World)
        → Failing w (
            (transaction env (find_stream env id >>= cancel_found env sdk event id fields)
                >>= notify_cancelled env sdk event id)
              w)
    cancel_rest-Failing id fields w =
        fail-then (transaction env (find_stream env id >>= cancel_found env sdk event id fields))
          (notify_cancelled env sdk event id) w
          (transaction-Untouched env (find_stream env id >>= cancel_found env sdk event id fields) w
            (cancel_body-SameDispatched id fields))
          (notify_cancelled-Succeeds id)

    abbrev topic_id : Exec Native
    topic_id = lift (sdk.sc_val_to_native (get_elem? event.topic 1))

    abbrev payload : Exec Native
    payload = lift (sdk.sc_val_to_native event.value)

    handle_withdraw-Failing : (w : World) → Failing w (handle_withdraw env sdk event w)
    unfolding handle_withdraw
    handle_withdraw-Failing w =
        let finish = λ (id : ℤ) (native : Native).
          transaction env (find_stream env id >>= withdraw_found env sdk event id native)
          >>= notify_withdrawn env sdk event id in
        let read = λ (id : ℤ). payload >>= finish id in
        let start = λ (n : Native). lift (as_bigint n) >>= read in
        fail-pass topic_id start w refl (λ n. fail-pass (lift (as_bigint n)) read w refl (λ id.
          fail-pass payload (finish id) w refl (λ native. withdraw_rest-Failing id native w)))

    handle_cancel-Failing : (w : World) → Failing w (handle_cancel env sdk event w)
    unfolding handle_cancel
    handle_cancel-Failing w =
        let finish = λ (id : ℤ) (fields : List Native).
          transaction env (find_stream env id >>= cancel_found env sdk event id fields)
          >>= notify_cancelled env sdk event id in
        let split = λ (id : ℤ) (native : Native). lift (as_items native) >>= finish id in
        let read = λ (id : ℤ). payload >>= split id in
        let start = λ (n : Native). lift (as_bigint n) >>= read in
        fail-pass topic_id start w refl (λ n. fail-pass (lift (as_bigint n)) read w refl (λ id.
          fail-pass payload (split id) w refl (λ native.
            fail-pass (lift (as_items native)) (finish id) w refl
              (λ fields. cancel_rest-Failing id fields w))))

    handle_stream_created-Failing : (w : World) → Failing w (handle_stream_created env sdk event w)
    unfolding handle_stream_created
    handle_stream_created-Failing w =
        let store = store_created env sdk event in
        let tell = λ (id : ℤ) (donor : String) (ngo : Ngo).
          dispatch_notification (stream_created event.id id donor ngo.id) in
        let save = λ (id : ℤ) (fields : List Native) (donor : String) (ngo : String).
          transaction env (store id donor ngo fields) >>= tell id donor in
        let ngo_of = λ (id : ℤ) (fields : List Native) (donor : String).
          lift (string_at sdk fields 1) >>= save id fields donor in
        let donor_of =
          λ (id : ℤ) (fields : List Native). lift (string_at sdk fields 0) >>= ngo_of id fields in
        let split = λ (id : ℤ) (native : Native). lift (as_items native) >>= donor_of id in
        let read = λ (id : ℤ). payload >>= split id in
        let start = λ (n : Native). lift (as_bigint n) >>= read in
        fail-pass topic_id start w refl (λ n. fail-pass (lift (as_bigint n)) read w refl (λ id.
          fail-pass payload (split id) w refl (λ native.
            fail-pass (lift (as_items native)) (donor_of id) w refl (λ fields.
              fail-pass (lift (string_at sdk fields 0)) (ngo_of id fields) w refl (λ donor.
                fail-pass (lift (string_at sdk fields 1)) (save id fields donor) w refl (λ ngo.
                  fail-then (transaction env (store id donor ngo fields)) (tell id donor) w
                    (transaction-Untouched env (store id donor ngo fields) w
                      (store_created-SameDispatched env sdk event id donor ngo fields))
                    (λ row v. tt)))))))

    handle_topic-Failing :
        (topic : String) (w : World) → Failing w (handle_topic env sdk event topic w)
    unfolding handle_topic
    handle_topic-Failing topic w =
        ground (
          arith,
          handle_stream_created-Failing w,
          handle_withdraw-Failing w,
          handle_cancel-Failing w,
        )

    handle_donation_vault_event-Failing :
        (w : World) → Failing w (handle_donation_vault_event env sdk event w)
    unfolding handle_donation_vault_event
    handle_donation_vault_event-Failing w =
        fail-pass (lift (sdk.sc_val_to_native (get_elem? event.topic 0)))
          (λ topic. handle_topic env sdk event (topic_text env sdk event topic)) w refl
          (λ topic. handle_topic-Failing (topic_text env sdk event topic) w)

    -- A vault event whose handler throws, for whatever reason and at whatever call, has changed no
    -- donor, NGO, stream, event row or checkpoint, and has dispatched no notification.
    pub handle_donation_vault_event-Untouched :
        (w : World) {e : Thrown} {w' : World}
        → handle_donation_vault_event env sdk event w ≡ (err e, w')
        → Untouched w w'
    handle_donation_vault_event-Untouched w h = rw h at (handle_donation_vault_event-Failing w)
