-- ===== src/Scripts/Reconcile/Rows.antt =====
-- The rows that the updates of src/scripts/reconcileVerification.ts leave, by the ids updated so far.
use mathlib.Core.Option.{some-injective}
use streamgive_backend.Prelude.{
  ℕ, zero, suc, Bool, true, false, ◌&&◌, ◌||◌, not, Option, some, List, [], ◌∷◌, ◌≡◌, inl, inr,
  refl, sym, arith, get_elem?, any, update_where, eq_refl, if◌then◌else◌, Bool-cases, String, map,
  ◌==◌, All, eq_iff, eq_refl,
}
use streamgive_backend.Db.{Ngo}
use streamgive_backend.Db.Exec.{Result, ok}
use streamgive_backend.Scripts.Reconcile.{has_id, set_verified, same_flag}
use streamgive_backend.Scripts.Reconcile.Spec.{correct}

-- `@id`
abbrev pub unique_ids : List Ngo → Bool
unique_ids [] = true
unique_ids (ngo ∷ ngos) = not (any (has_id ngo.id) ngos) && unique_ids ngos

any-has_id :
    (ngos : List Ngo) (i : ℕ) (a : Ngo) (id : String)
    → get_elem? ngos i ≡ some a
    → (a.id == id) ≡ true
    → any (has_id id) ngos ≡ true
any-has_id [] i a id e h = absurd (ground arith)
any-has_id (x ∷ xs) zero a id e h = ground arith
any-has_id (x ∷ xs) (suc i) a id e h = ground (arith, any-has_id xs i a id e h)

none-has_id :
    (ngos : List Ngo) (a : Ngo)
    → any (has_id a.id) ngos ≡ false
    → All (λ r. (r.id == a.id) ≡ true → r ≡ a) ngos
none-has_id [] a h = tt
none-has_id (x ∷ xs) a h = (λ e. absurd (ground (arith, e)), none-has_id xs a (ground arith))

pub unique_ids-All :
    (ngos : List Ngo) (i : ℕ) (a : Ngo)
    → unique_ids ngos ≡ true
    → get_elem? ngos i ≡ some a
    → All (λ r. (r.id == a.id) ≡ true → r ≡ a) ngos
unique_ids-All [] i a u e = tt
unique_ids-All (x ∷ xs) zero a u e =
    let x_eq : x ≡ a = some-injective _ _ e in
    (λ _. x_eq, none-has_id xs a (rw (sym x_eq) (ground (arith, u))))
unique_ids-All (x ∷ xs) (suc i) a u e = (
  λ s. absurd (ground (arith, u, any-has_id xs i a x.id e, s, eq_iff x.id a.id, eq_iff a.id x.id)),
  unique_ids-All xs i a (ground (arith, u)) e,
)

abbrev pub mark : String → (String → Bool) → String → Bool
mark id written other_id = (other_id == id) || written other_id

module _ (read : String → Result (Option Bool)) where
  -- The rows that have been updated, by id.
  abbrev pub write : (String → Bool) → Ngo → Ngo
  write written ngo = if written ngo.id then correct read ngo else ngo

  module _ (a : Ngo) (v : Bool) (answered : read a.owner_address ≡ ok (some v))
      (differs : same_flag v a.verified ≡ false) where
    pub correct-a : correct read a ≡ set_verified v a
    correct-a = ground (arith, answered, differs)

    id-write : (written : String → Bool) (r : Ngo) → (write written r).id ≡ r.id
    id-write written r = ground arith

    write-mark-a :
        (written : String → Bool)
        → (if has_id a.id (write written a)
            then set_verified v (write written a)
            else write written a)
          ≡ write (mark a.id written) a
    write-mark-a written = ground (arith, correct-a, eq_refl a.id, id-write written a)

    write-mark :
        (written : String → Bool) (r : Ngo)
        → ((r.id == a.id) ≡ true → r ≡ a)
        → (if has_id a.id (write written r)
            then set_verified v (write written r)
            else write written r)
          ≡ write (mark a.id written) r
    write-mark written r same = elim (Bool-cases (r.id == a.id)) [
      | inl e ↦ rw (same e) (write-mark-a written)
      | inr e ↦ ground (arith, e, id-write written r)
    ]

    pub update-written :
        (written : String → Bool) (ngos : List Ngo)
        → All (λ r. (r.id == a.id) ≡ true → r ≡ a) ngos
        → update_where (has_id a.id) (set_verified v) (map (write written) ngos)
          ≡ map (write (mark a.id written)) ngos
    update-written written [] h = refl
    update-written written (r ∷ rs) (h, hs) =
        ground (arith, write-mark written r h, update-written written rs hs)
