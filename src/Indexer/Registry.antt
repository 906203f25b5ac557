-- ===== src/Indexer/Registry.antt =====
-- src/indexer/handlers/ngoRegistry.ts: the registry's events.
pub mod Frame
pub mod Streams
use streamgive_backend.Prelude.{
  String, Bool, true, false, Option, none, some, ◌==◌, get_elem?, find_first, upsert, update_where,
  if◌then◌else◌,
}
use streamgive_backend.Db.{Ngo, Payload}
use streamgive_backend.Db.Exec.{
  NotificationEvent, ngo_registered, ngo_approved, ngo_revoked, Env, Exec, pure, lift, ◌>>=◌, ◌>>◌,
  gets, query, execute, transaction,
}
use streamgive_backend.Indexer.Event.{Native, Sdk, ContractEvent, as_text}
use streamgive_backend.Indexer.Vault.{has_owner, dispatch_notification, create_stream_event}

module _ (env : Env) where
  -- `tx.ngo.upsert` of the `register` event
  pub upsert_name : String → String → Exec Unit
  upsert_name owner_address name = do
    n ← gets (λ w. w.calls)
    execute env λ db. record db {
      ngos =
          upsert (has_owner owner_address)
            (record {
              id = env.uuid n;
              owner_address = owner_address;
              name = name;
              verified = false;
            })
            (λ row. record row { name = name }) db.ngos;
    }

  -- `tx.ngo.updateMany`: no error where there is no row
  pub set_verified : String → Bool → Exec Unit
  set_verified owner_address verified = execute env λ db. record db {
    ngos =
        update_where (has_owner owner_address) (λ row. record row { verified = verified }) db.ngos;
  }

  pub find_owner : String → Exec (Option Ngo)
  find_owner owner_address = query env (λ db. find_first (has_owner owner_address) db.ngos)

  abbrev notify_found : (String → NotificationEvent) → Option Ngo → Exec Unit
  notify_found notification none = pure tt
  notify_found notification (some ngo) = dispatch_notification (notification ngo.id)

  module _ {ScVal : Type 0} (sdk : Sdk ScVal) (event : ContractEvent ScVal) where
    -- A registry event has no stream.
    pub persist : Payload → Exec Unit
    persist payload = create_stream_event env (record {
      stream_id = none;
      ledger = event.ledger;
      tx_hash = event.tx_hash;
      payload = payload;
    })

    pub handle_register : String → Exec Unit
    unfolding upsert_name persist find_owner
    handle_register owner_address = do
      native ← lift (sdk.sc_val_to_native event.value)
      name ← lift (as_text native)
      transaction env
          (do upsert_name owner_address name; persist (Payload.register owner_address name))
      ngo ← find_owner owner_address
      notify_found (ngo_registered event.id owner_address) ngo

    pub handle_approved : String → Exec Unit
    unfolding set_verified persist find_owner
    handle_approved owner_address = do
      transaction env (do set_verified owner_address true; persist (Payload.approved owner_address))
      ngo ← find_owner owner_address
      notify_found (ngo_approved event.id owner_address) ngo

    pub handle_revoked : String → Exec Unit
    unfolding set_verified persist find_owner
    handle_revoked owner_address = do
      transaction env (do set_verified owner_address false; persist (Payload.revoked owner_address))
      ngo ← find_owner owner_address
      notify_found (ngo_revoked event.id owner_address) ngo

    pub handle_registry_topic : Native → String → Exec Unit
    unfolding handle_register handle_approved handle_revoked
    handle_registry_topic (Native.text topic) owner_address =
        if topic == "register"
        then handle_register owner_address
        else if topic == "approved"
        then handle_approved owner_address
        else if topic == "revoked"
        then handle_revoked owner_address
        else pure tt
    handle_registry_topic topic owner_address = pure tt

    pub handle_ngo_registry_event : Exec Unit
    unfolding handle_registry_topic
    handle_ngo_registry_event = do
      topic ← lift (sdk.sc_val_to_native (get_elem? event.topic 0))
      owner ← lift (sdk.sc_val_to_native (get_elem? event.topic 1))
      owner_address ← lift (sdk.to_string owner)
      handle_registry_topic topic owner_address
