-- ===== src/Indexer/Registry/Frame.antt =====
-- The registry's handlers leave the worker's state alone.
use streamgive_backend.Prelude.{String, Bool, Option, none, some}
use streamgive_backend.Db.{Ngo, Payload}
use streamgive_backend.Db.Exec.{Env, NotificationEvent}
use streamgive_backend.Db.Keeps.{Keeps, keeps_rules}
use streamgive_backend.Indexer.Event.{Sdk, ContractEvent, Native}
use streamgive_backend.Indexer.Frame.{same_worker, SameWorker-prisma}
use streamgive_backend.Indexer.Vault.Frame.{
  dispatch_notification-SameWorker, create_stream_event-SameWorker,
}
use streamgive_backend.Indexer.Registry.{
  upsert_name, set_verified, find_owner, notify_found, persist, handle_register, handle_approved,
  handle_revoked, handle_registry_topic, handle_ngo_registry_event,
}

module _ (env : Env) where
  upsert_name-SameWorker : (owner name : String) → Keeps same_worker (upsert_name env owner name)
  unfolding upsert_name
  upsert_name-SameWorker owner name = search (keeps_rules, SameWorker-prisma)

  set_verified-SameWorker :
      (owner : String) (v : Bool) → Keeps same_worker (set_verified env owner v)
  unfolding set_verified
  set_verified-SameWorker owner v = search (keeps_rules, SameWorker-prisma)

  find_owner-SameWorker : (owner : String) → Keeps same_worker (find_owner env owner)
  unfolding find_owner
  find_owner-SameWorker owner = search (keeps_rules, SameWorker-prisma)

  notify_found-SameWorker :
      (n : String → NotificationEvent) (o : Option Ngo) → Keeps same_worker (notify_found env n o)
  notify_found-SameWorker n none = search keeps_rules
  notify_found-SameWorker n (some ngo) = dispatch_notification-SameWorker (n ngo.id)

  module _ {ScVal : Type 0} (sdk : Sdk ScVal) (event : ContractEvent ScVal) where
    persist-SameWorker : (p : Payload) → Keeps same_worker (persist env sdk event p)
    unfolding persist
    persist-SameWorker p = create_stream_event-SameWorker env _

    ruleset registry_rules = (
      keeps_rules, upsert_name-SameWorker, set_verified-SameWorker, find_owner-SameWorker,
      notify_found-SameWorker, persist-SameWorker,
    )

    handle_register-SameWorker : (a : String) → Keeps same_worker (handle_register env sdk event a)
    unfolding handle_register
    handle_register-SameWorker a = search registry_rules depth 20

    handle_approved-SameWorker : (a : String) → Keeps same_worker (handle_approved env sdk event a)
    unfolding handle_approved
    handle_approved-SameWorker a = search registry_rules depth 20

    handle_revoked-SameWorker : (a : String) → Keeps same_worker (handle_revoked env sdk event a)
    unfolding handle_revoked
    handle_revoked-SameWorker a = search registry_rules depth 20

    handle_registry_topic-SameWorker :
        (t : Native) (a : String) → Keeps same_worker (handle_registry_topic env sdk event t a)
    unfolding handle_registry_topic
    handle_registry_topic-SameWorker (Native.text t) a = search (
      keeps_rules, handle_register-SameWorker, handle_approved-SameWorker,
      handle_revoked-SameWorker,
    )
    handle_registry_topic-SameWorker _ a = search keeps_rules

    pub handle_ngo_registry_event-SameWorker :
        Keeps same_worker (handle_ngo_registry_event env sdk event)
    unfolding handle_ngo_registry_event
    handle_ngo_registry_event-SameWorker =
        search (keeps_rules, handle_registry_topic-SameWorker) depth 10
