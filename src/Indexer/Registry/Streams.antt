-- ===== src/Indexer/Registry/Streams.antt =====
-- The registry's handlers write no stream.
use streamgive_backend.Prelude.{String, Bool, Option, none, some}
use streamgive_backend.Db.{Ngo, Payload}
use streamgive_backend.Db.Exec.{Env, NotificationEvent}
use streamgive_backend.Db.Keeps.{Keeps, keeps_rules}
use streamgive_backend.Indexer.Event.{Sdk, ContractEvent, Native}
use streamgive_backend.Indexer.Vault.{create_stream_event}
use streamgive_backend.Indexer.Vault.Undated.{
  same_streams, SameStreams-prisma, dispatch_notification-SameStreams,
}
use streamgive_backend.Indexer.Registry.{
  upsert_name, set_verified, find_owner, notify_found, persist, handle_register, handle_approved,
  handle_revoked, handle_registry_topic, handle_ngo_registry_event,
}

module _ (env : Env) where
  upsert_name-SameStreams : (owner name : String) → Keeps same_streams (upsert_name env owner name)
  unfolding upsert_name
  upsert_name-SameStreams owner name = search (keeps_rules, SameStreams-prisma)

  set_verified-SameStreams :
      (owner : String) (v : Bool) → Keeps same_streams (set_verified env owner v)
  unfolding set_verified
  set_verified-SameStreams owner v = search (keeps_rules, SameStreams-prisma)

  find_owner-SameStreams : (owner : String) → Keeps same_streams (find_owner env owner)
  unfolding find_owner
  find_owner-SameStreams owner = search (keeps_rules, SameStreams-prisma)

  notify_found-SameStreams :
      (n : String → NotificationEvent) (o : Option Ngo) → Keeps same_streams (notify_found env n o)
  notify_found-SameStreams n none = search keeps_rules
  notify_found-SameStreams n (some ngo) = dispatch_notification-SameStreams (n ngo.id)

  module _ {ScVal : Type 0} (sdk : Sdk ScVal) (event : ContractEvent ScVal) where
    persist-SameStreams : (p : Payload) → Keeps same_streams (persist env sdk event p)
    unfolding persist create_stream_event
    persist-SameStreams p = search (keeps_rules, SameStreams-prisma)

    ruleset registry_rules = (
      keeps_rules, upsert_name-SameStreams, set_verified-SameStreams, find_owner-SameStreams,
      notify_found-SameStreams, persist-SameStreams,
    )

    handle_register-SameStreams :
        (a : String) → Keeps same_streams (handle_register env sdk event a)
    unfolding handle_register
    handle_register-SameStreams a = search registry_rules depth 20

    handle_approved-SameStreams :
        (a : String) → Keeps same_streams (handle_approved env sdk event a)
    unfolding handle_approved
    handle_approved-SameStreams a = search registry_rules depth 20

    handle_revoked-SameStreams : (a : String) → Keeps same_streams (handle_revoked env sdk event a)
    unfolding handle_revoked
    handle_revoked-SameStreams a = search registry_rules depth 20

    handle_registry_topic-SameStreams :
        (t : Native) (a : String) → Keeps same_streams (handle_registry_topic env sdk event t a)
    unfolding handle_registry_topic
    handle_registry_topic-SameStreams (Native.text t) a = search (
      keeps_rules, handle_register-SameStreams, handle_approved-SameStreams,
      handle_revoked-SameStreams,
    )
    handle_registry_topic-SameStreams _ a = search keeps_rules

    pub handle_ngo_registry_event-SameStreams :
        Keeps same_streams (handle_ngo_registry_event env sdk event)
    unfolding handle_ngo_registry_event
    handle_ngo_registry_event-SameStreams =
        search (keeps_rules, handle_registry_topic-SameStreams) depth 10
