-- ===== src/Indexer/Vault/Evolution.antt =====
-- How the row of a stream evolves: who it is about never changes, and a cancelled one is final.
use streamgive_backend.Prelude.{
  ℕ, ◌≡◌, refl, ◌∙◌, ap, true, false, Option, some, List, ℤ, eqb_ℤ, eqb_ℤ_iff, find_first,
  update_where, find_first-update_where, find_first-update_where_ne, any, Bool-cases, inl, inr,
  arith,
}
use mathlib.Core.Option
use streamgive_backend.Db.{Stream, Database}
use streamgive_backend.Db.Exec.{Result, ok, err, Env, World, NotificationEvent, prisma}
use streamgive_backend.Db.Keeps.{Relation, Keeps, Keeps-prisma, Keeps-modify}
use streamgive_backend.Db.Split.{prisma-split}
use streamgive_backend.Indexer.Vault.{
  has_chain_id, is_cancelled, withdraw_from_row, cancel_row, update_stream, find_stream,
  dispatch_notification,
}

-- The fields that say which stream a row is about.
pub record SameIdentity (s t : Stream) : Type 0 where
  pub id : t.id ≡ s.id
  pub on_chain_id : t.on_chain_id ≡ s.on_chain_id
  pub donor_id : t.donor_id ≡ s.donor_id
  pub ngo_id : t.ngo_id ≡ s.ngo_id
  pub token_address : t.token_address ≡ s.token_address
  pub created_tx_hash : t.created_tx_hash ≡ s.created_tx_hash
  pub created_at : t.created_at ≡ s.created_at

pub record Evolves (s t : Stream) : Type 0 where
  pub identity : SameIdentity s t
  pub final : is_cancelled s.status ≡ true → t ≡ s

pub Evolves-refl : (s : Stream) → Evolves s s
Evolves-refl s = ground arith

pub Evolves-trans : {s t u : Stream} → Evolves s t → Evolves t u → Evolves s u
Evolves-trans {s} {t} {u} a b = record {
  identity = ground arith;
  final = λ h. b.final (ap (λ (r : Stream). is_cancelled r.status) (a.final h) ∙ h) ∙ a.final h;
}

-- Each row that was there is there, and has evolved.
pub record RowsEvolve (v w : World) : Type 0 where
  pub row :
      (id : ℤ) (s : Stream)
      → find_first (has_chain_id id) v.database.streams ≡ some s
      → (t : Stream) × (find_first (has_chain_id id) w.database.streams ≡ some t) × Evolves s t

pub RowsEvolve-eq : (v w : World) → w.database.streams ≡ v.database.streams → RowsEvolve v w
RowsEvolve-eq v w e = record {
  row = λ id s h. (s, ap (find_first (has_chain_id id)) e ∙ h, Evolves-refl s);
}

pub RowsEvolve-trans : {u v w : World} → RowsEvolve u v → RowsEvolve v w → RowsEvolve u w
RowsEvolve-trans a b = record {
  row = λ id s h.
      let (t, found, st) = a.row id s h in
      let (r, found', tr) = b.row id t found in (r, found', Evolves-trans st tr);
}

abbrev pub rows_evolve : Relation
rows_evolve = record {
  holds = RowsEvolve;
  same = λ w. RowsEvolve-eq w w refl;
  after = RowsEvolve-trans;
  ticks = λ w. RowsEvolve-eq w _ refl;
  rolls = λ v w h. RowsEvolve-eq v _ refl;
}

-- A call that keeps the table of streams.
pub RowsEvolve-prisma :
    (env : Env) {A : Type 0} (f : Database → Result A × Database)
    → ((db : Database) → (f db).1.streams ≡ db.streams)
    → Keeps rows_evolve (prisma env f)
RowsEvolve-prisma env f h = Keeps-prisma env f (λ w. RowsEvolve-eq w _ (h w.database))

pub dispatch_notification-RowsEvolve :
    (n : NotificationEvent) → Keeps rows_evolve (dispatch_notification n)
dispatch_notification-RowsEvolve n = Keeps-modify _ (λ w. RowsEvolve-eq w _ refl)

-- An update of the row with one id, which was not cancelled.
module _ (k : ℤ) (change : Stream → Stream) (same : (x : Stream) → SameIdentity x (change x)) where
  keeps_key : (x : Stream) → has_chain_id k x ≡ true → has_chain_id k (change x) ≡ true
  keeps_key x h = rw ((same x).on_chain_id) h

  other_key :
      (id : ℤ)
      → eqb_ℤ k id ≡ false
      → (x : Stream) → has_chain_id k x ≡ true
      → (has_chain_id id x ≡ false) × (has_chain_id id (change x) ≡ false)
  other_key id ne x h =
      let e = (eqb_ℤ_iff x.on_chain_id k).0 h in (rw e ne, rw ((same x).on_chain_id, e) ne)

  row-update :
      (id : ℤ) (s r : Stream) (rows : List Stream)
      → is_cancelled s.status ≡ false
      → find_first (has_chain_id k) rows ≡ some s
      → find_first (has_chain_id id) rows ≡ some r
      → (t : Stream) × (find_first (has_chain_id id) (update_where (has_chain_id k) change rows)
          ≡ some t)
        × Evolves r t
  row-update id s r rows live found_k found = elim (Bool-cases (eqb_ℤ k id)) [
    | inr ne ↦ (
      r,
      find_first-update_where_ne (has_chain_id id) (has_chain_id k) change rows (other_key id ne)
          ∙ found,
      Evolves-refl r,
    )
    | inl eq ↦
        let e = (eqb_ℤ_iff k id).0 eq in
        let here : find_first (has_chain_id k) rows ≡ some r = rw e found in
        let s-eq-r : s ≡ r = cc (found_k, here) in
        (
          change r,
          rw (← e) (
              find_first-update_where (has_chain_id k) change rows keeps_key
              ∙ ap (Option.map change) here),
          record {
            identity = same r;
            final = λ h. cc (ap (λ (x : Stream). is_cancelled x.status) s-eq-r);
          },
        )
  ]

  pub update_stream-RowsEvolve :
      (env : Env) (s : Stream) (w : World)
      → is_cancelled s.status ≡ false
      → find_first (has_chain_id k) w.database.streams ≡ some s
      → RowsEvolve w (update_stream env k change w).1
  unfolding update_stream
  update_stream-RowsEvolve env s w live found =
      prisma-split env (λ r. RowsEvolve w r.1) _ w (λ e. RowsEvolve-eq w _ refl)
        (elim (Bool-cases (any (has_chain_id k) w.database.streams)) [
          | inl there ↦
              rw there
                (record { row = λ id r h. row-update id s r w.database.streams live found h })
          | inr gone ↦ rw gone (RowsEvolve-eq w _ refl)
        ])

pub withdraw_from_row-SameIdentity :
    (accrued : ℤ) (at : ℕ) (x : Stream) → SameIdentity x (withdraw_from_row accrued at x)
unfolding withdraw_from_row
withdraw_from_row-SameIdentity accrued at x = ground arith

pub cancel_row-SameIdentity :
    (accrued : ℤ) (at : ℕ) (x : Stream) → SameIdentity x (cancel_row accrued at x)
unfolding cancel_row
cancel_row-SameIdentity accrued at x = ground arith

-- What `findUnique` answers, at a database that it leaves alone.
abbrev pub Found : ℤ → World → Result (Option Stream) × World → Type 0
Found id w (ok o, v) =
    (v.database ≡ w.database) × (find_first (has_chain_id id) w.database.streams ≡ o)
Found id w (err e, v) = v.database ≡ w.database

pub find_stream-Found : (env : Env) (id : ℤ) (w : World) → Found id w (find_stream env id w)
unfolding find_stream
find_stream-Found env id w = prisma-split env (Found id w) _ w (λ e. refl) (refl, refl)
