-- ===== src/Scripts/Reconcile/Spec.antt =====
-- What a reconciliation of src/scripts/reconcileVerification.ts is to do: one pass over the NGOs in order.
use streamgive_backend.Prelude.{
  ℕ, suc, ◌+◌, Bool, Option, none, some, List, [], ◌∷◌, ◌≡◌, refl, arith, length, get_elem?,
  if◌then◌else◌, String,
}
use streamgive_backend.Db.{Ngo}
use streamgive_backend.Db.Exec.{Result, ok, err}
use streamgive_backend.Scripts.Reconcile.{
  ReconciliationMismatch, mismatch_of, set_verified, same_flag, filter_mismatches,
}

-- The specification: one NGO after the other.
module _ (read : String → Result (Option Bool)) where
  abbrev pub compare_flag : Ngo → Result (Option Bool) → Option ReconciliationMismatch
  compare_flag ngo (ok (some on_chain)) =
      if same_flag on_chain ngo.verified then none else some (mismatch_of ngo on_chain)
  compare_flag ngo (ok none) = none
  compare_flag ngo (err e) = none

  abbrev pub compare_ngo : Ngo → Option ReconciliationMismatch
  compare_ngo ngo = compare_flag ngo (read ngo.owner_address)

  abbrev pub mismatches_of : List Ngo → List ReconciliationMismatch
  mismatches_of [] = []
  mismatches_of (ngo ∷ ngos) =
      let rest = mismatches_of ngos in
      elim (compare_ngo ngo) [ some mismatch ↦ mismatch ∷ rest | none ↦ rest ]

  -- The row with the status that the contract has, if it has one.
  abbrev pub correct : Ngo → Ngo
  correct ngo = elim (compare_ngo ngo) [
    | some mismatch ↦ set_verified mismatch.on_chain_verified ngo
    | none ↦ ngo
  ]

  pub filter_mismatches-of :
      (results : ℕ → Option (Option ReconciliationMismatch)) (index : ℕ) (ngos : List Ngo)
      → ((i j : ℕ) (ngo : Ngo)
          → j ≡ index + i
          → get_elem? ngos i ≡ some ngo
          → results j ≡ some (compare_ngo ngo))
      → filter_mismatches results index (length ngos) ≡ mismatches_of ngos
  unfolding filter_mismatches
  filter_mismatches-of results index [] h = refl
  filter_mismatches-of results index (ngo ∷ ngos) h = ground (
    arith,
    h 0 index ngo (omega arith) refl,
    filter_mismatches-of results (suc index) ngos (λ i j n e. h (suc i) j n (omega (arith, e))),
  )
