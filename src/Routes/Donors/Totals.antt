-- ===== src/Routes/Donors/Totals.antt =====
-- The two committed totals of a donor agree.
use streamgive_backend.Prelude.{
  String, ◌≡◌, refl, ap, ◌∙◌, Bool, List, [], ◌∷◌, map, select, ℤ, pos, ◌+ℤ◌, ◌==◌, int_laws,
  Bool-cases, inl, inr,
}
use streamgive_backend.Db.{Stream, StreamStatus, Donor, active, cancelled}
use streamgive_backend.Routes.TokenTotals.{
  StreamForTokenTotals, TokenTotal, committed, add_total, add_streams, insert, sort,
  committed_totals_by_token,
}
use streamgive_backend.Routes.TokenTotals.Sums.{+ℤ_assoc, +ℤ_swap, +ℤ_zero}
use streamgive_backend.Routes.Donors.{sum_committed, with_totals, selected, is_of_donor}

abbrev pub sum_amounts : List TokenTotal → ℤ
sum_amounts [] = pos 0
sum_amounts (total ∷ totals) = total.amount +ℤ sum_amounts totals

sum-add_total :
    (token : String) (amount : ℤ) (totals : List TokenTotal)
    → sum_amounts (add_total token amount totals) ≡ amount +ℤ sum_amounts totals
unfolding add_total
sum-add_total token amount [] = ap (λ (x : ℤ). x +ℤ pos 0) (+ℤ_zero amount)
sum-add_total token amount (total ∷ totals) = elim (Bool-cases (total.token_address == token)) [
  | inl e ↦ rw e (
      +ℤ_assoc total.amount amount (sum_amounts totals)
      ∙ +ℤ_swap total.amount amount (sum_amounts totals))
  | inr e ↦ rw e (
      ap (λ (x : ℤ). total.amount +ℤ x) (sum-add_total token amount totals)
      ∙ +ℤ_swap total.amount amount (sum_amounts totals))
]

sum-insert :
    (le : String → String → Bool) (total : TokenTotal) (totals : List TokenTotal)
    → sum_amounts (insert le total totals) ≡ total.amount +ℤ sum_amounts totals
unfolding insert
sum-insert le total [] = refl
sum-insert le total (first ∷ rest) =
    elim (Bool-cases (le total.token_address first.token_address)) [
      | inl e ↦ rw e refl
      | inr e ↦ rw e (
          ap (λ (x : ℤ). first.amount +ℤ x) (sum-insert le total rest)
          ∙ +ℤ_swap first.amount total.amount (sum_amounts rest))
    ]

sum-sort :
    (le : String → String → Bool) (totals : List TokenTotal)
    → sum_amounts (sort le totals) ≡ sum_amounts totals
unfolding sort
sum-sort le [] = refl
sum-sort le (total ∷ totals) =
    sum-insert le total (sort le totals) ∙ ap (λ (x : ℤ). total.amount +ℤ x) (sum-sort le totals)

-- What one stream adds, in either order of the additions.
one_stream :
    (status : StreamStatus) (balance withdrawn sum : ℤ)
    → (elim status [ cancelled ↦ withdrawn | active ↦ balance +ℤ withdrawn ]) +ℤ sum
      ≡ (elim status [ cancelled ↦ sum +ℤ withdrawn | active ↦ (sum +ℤ balance) +ℤ withdrawn ])
one_stream active balance withdrawn sum = grind int_laws
one_stream cancelled balance withdrawn sum = grind int_laws

-- Both loops add the committed amounts to what they start from.
sum-add_streams :
    (streams : List StreamForTokenTotals) (totals : List TokenTotal)
    → sum_amounts (add_streams streams totals) ≡ sum_committed (sum_amounts totals) streams
unfolding add_streams sum_committed committed
sum-add_streams [] totals = refl
sum-add_streams (stream ∷ streams) totals =
    sum-add_streams streams (add_total stream.token_address (committed stream) totals)
    ∙ ap (λ sum. sum_committed sum streams)
        (sum-add_total stream.token_address (committed stream) totals
          ∙ one_stream stream.status stream.balance stream.withdrawn (sum_amounts totals))

-- The amounts by token of a donor add up to the committed total that is shown beside them.
with_totals-agrees :
    (locale_le : String → String → Bool) (streams : List Stream) (donor : Donor)
    → sum_amounts (with_totals locale_le streams donor).committed_by_token
      ≡ (with_totals locale_le streams donor).total_committed
unfolding with_totals committed_totals_by_token
with_totals-agrees locale_le streams donor =
    let own = map selected (select (is_of_donor donor.id) streams) in
    sum-sort locale_le (add_streams own []) ∙ sum-add_streams own []
