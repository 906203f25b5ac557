-- ===== src/Indexer/Vault/Failing.antt =====
-- What a call that throws has changed: dead letters only, as a transaction is rolled back.
use streamgive_backend.Prelude.{ℕ, String, ◌≡◌, refl, ◌∙◌, Option, none, some, List, ℤ, arith}
use streamgive_backend.Db.{Stream, StreamEvent, Database}
use streamgive_backend.Db.Exec.{
  Result, ok, err, Env, Exec, World, Thrown, prisma, transaction, ◌>>=◌,
}
use streamgive_backend.Db.Keeps.{Relation, Keeps, Keeps-prisma, keeps_rules}
use streamgive_backend.Db.Split.{bind-with, transaction-split}
use streamgive_backend.Indexer.Event.{Sdk, ContractEvent, Native}
use streamgive_backend.Indexer.DeadLetters.{record_dead_letter}
use streamgive_backend.Indexer.Vault.{
  store_created, find_stream, withdraw_found, cancel_found, date_argument, ensure_donor, ensure_ngo,
  update_stream, upsert_stream, create_stream_event, persist_withdraw, withdraw_active,
  persist_cancel, cancel_active,
}

-- Every table but the dead letters, and the dispatched notifications.
pub record Untouched (v w : World) : Type 0 where
  pub donors : w.database.donors ≡ v.database.donors
  pub ngos : w.database.ngos ≡ v.database.ngos
  pub streams : w.database.streams ≡ v.database.streams
  pub stream_events : w.database.stream_events ≡ v.database.stream_events
  pub checkpoint : w.database.checkpoint ≡ v.database.checkpoint
  pub dispatched : w.dispatched ≡ v.dispatched

-- No notification is dispatched.
pub record SameDispatched (v w : World) : Type 0 where
  pub same : w.dispatched ≡ v.dispatched

abbrev pub same_dispatched : Relation
same_dispatched = record {
  holds = SameDispatched;
  same = λ w. record { same = refl };
  after = λ {u} {v} {w} a b. record { same = b.same ∙ a.same };
  ticks = λ w. record { same = refl };
  rolls = λ v w h. record { same = h.same };
}

abbrev pub Failing : {A : Type 0} → World → Result A × World → Type 0
Failing w (ok a, v) = Unit {0}
Failing w (err e, v) = Untouched w v

pub transaction-Untouched :
    (env : Env) {A : Type 0} (body : Exec A) (w : World)
    → Keeps same_dispatched body
    → Failing w (transaction env body w)
transaction-Untouched env body w k =
    let s = (k.at w).same in
    transaction-split env (Failing w) body w (λ e. ground arith) (λ e. ground arith) (λ a h. tt)

pub SameDispatched-prisma :
    (env : Env) {A : Type 0} (f : Database → Result A × Database)
    → Keeps same_dispatched (prisma env f)
SameDispatched-prisma env f = Keeps-prisma env f (λ w. record { same = refl })

abbrev pub Succeeds : {A : Type 0} → Result A × World → Type 0
Succeeds (ok a, v) = Unit {0}
Succeeds (err e, v) = ⊥

pub Failing-of_Succeeds : {A : Type 0} (w : World) (r : Result A × World) → Succeeds r → Failing w r
Failing-of_Succeeds w (ok a, v) h = tt
Failing-of_Succeeds w (err e, v) h = absurd h

module _ {A B : Type 0} (m : Exec A) (f : A → Exec B) (w : World) where
  pub fail-pass : (m w).1 ≡ w → ((a : A) → Failing w (f a w)) → Failing w ((m >>= f) w)
  fail-pass e k =
      bind-with (λ r. r.1 ≡ w) (Failing w) m f w e (λ a v q. rw q (k a)) (λ e v q. ground arith)

  pub fail-then :
      Failing w (m w) → ((a : A) (v : World) → Succeeds (f a v)) → Failing w ((m >>= f) w)
  fail-then h k =
      bind-with (Failing w) (Failing w) m f w h (λ a v q. Failing-of_Succeeds w (f a v) (k a v))
        (λ e v q. q)

module _ (env : Env) where
  date_argument-SameDispatched : (at : Option ℕ) → Keeps same_dispatched (date_argument env at)
  unfolding date_argument
  date_argument-SameDispatched none = search keeps_rules
  date_argument-SameDispatched (some at) = search keeps_rules

  ruleset body_rules = (keeps_rules, SameDispatched-prisma, date_argument-SameDispatched)

  pub find_stream-SameDispatched : (id : ℤ) → Keeps same_dispatched (find_stream env id)
  unfolding find_stream
  find_stream-SameDispatched id = search body_rules

  ensure_donor-SameDispatched : (a : String) → Keeps same_dispatched (ensure_donor env a)
  unfolding ensure_donor
  ensure_donor-SameDispatched a = search body_rules

  ensure_ngo-SameDispatched : (a : String) → Keeps same_dispatched (ensure_ngo env a)
  unfolding ensure_ngo
  ensure_ngo-SameDispatched a = search body_rules

  update_stream-SameDispatched :
      (id : ℤ) (f : Stream → Stream) → Keeps same_dispatched (update_stream env id f)
  unfolding update_stream
  update_stream-SameDispatched id f = SameDispatched-prisma env _

  upsert_stream-SameDispatched : (s : Stream) → Keeps same_dispatched (upsert_stream env s)
  unfolding upsert_stream
  upsert_stream-SameDispatched s = SameDispatched-prisma env _

  create_stream_event-SameDispatched :
      (e : StreamEvent) → Keeps same_dispatched (create_stream_event env e)
  unfolding create_stream_event
  create_stream_event-SameDispatched e = search body_rules

  module _ {ScVal : Type 0} (sdk : Sdk ScVal) (event : ContractEvent ScVal) where
    record_dead_letter-SameDispatched :
        (e : Thrown) → Keeps same_dispatched (record_dead_letter sdk env event e)
    unfolding record_dead_letter
    record_dead_letter-SameDispatched e = search body_rules

    ruleset write_rules = (
      body_rules, ensure_donor-SameDispatched, ensure_ngo-SameDispatched,
      update_stream-SameDispatched, upsert_stream-SameDispatched,
      create_stream_event-SameDispatched, record_dead_letter-SameDispatched,
    )

    pub store_created-SameDispatched :
        (id : ℤ) (donor ngo : String) (fields : List Native)
        → Keeps same_dispatched (store_created env sdk event id donor ngo fields)
    unfolding store_created
    store_created-SameDispatched id donor ngo fields = search write_rules depth 30

    withdraw_active-SameDispatched :
        (id : ℤ) (native : Native) → Keeps same_dispatched (withdraw_active env sdk event id native)
    unfolding withdraw_active persist_withdraw
    withdraw_active-SameDispatched id native = search write_rules depth 20

    pub withdraw_found-SameDispatched :
        (id : ℤ) (native : Native) (o : Option Stream)
        → Keeps same_dispatched (withdraw_found env sdk event id native o)
    unfolding withdraw_found
    withdraw_found-SameDispatched id native none = search write_rules depth 10
    withdraw_found-SameDispatched id native (some s) =
        search (write_rules, withdraw_active-SameDispatched)

    cancel_active-SameDispatched :
        (id : ℤ) (fields : List Native)
        → Keeps same_dispatched (cancel_active env sdk event id fields)
    unfolding cancel_active persist_cancel
    cancel_active-SameDispatched id fields = search write_rules depth 20

    pub cancel_found-SameDispatched :
        (id : ℤ) (fields : List Native) (o : Option Stream)
        → Keeps same_dispatched (cancel_found env sdk event id fields o)
    unfolding cancel_found
    cancel_found-SameDispatched id fields none = search write_rules depth 10
    cancel_found-SameDispatched id fields (some s) =
        search (write_rules, cancel_active-SameDispatched)
