-- ===== src/Routes/TokenTotals.antt =====
-- src/routes/tokenTotals.ts: the committed amounts by token. `localeCompare(…) <= 0` is a parameter.
pub mod Sums
use streamgive_backend.Prelude.{String, Bool, List, [], ◌∷◌, ℤ, ◌+ℤ◌, pos, ◌==◌, if◌then◌else◌}
use streamgive_backend.Db.{StreamStatus, active, cancelled}

pub record StreamForTokenTotals : Type 0 where
  pub token_address : String
  pub balance : ℤ
  pub withdrawn : ℤ
  pub status : StreamStatus

pub record TokenTotal : Type 0 where
  pub token_address : String
  pub amount : ℤ

unfoldable pub committed : StreamForTokenTotals → ℤ
committed stream = elim stream.status [
  | cancelled ↦ stream.withdrawn
  | active ↦ stream.balance +ℤ stream.withdrawn
]

-- `totals.set(token, (totals.get(token) ?? 0n) + amount)`
unfoldable pub add_total : String → ℤ → List TokenTotal → List TokenTotal
add_total token amount [] = record { token_address = token; amount = pos 0 +ℤ amount } ∷ []
add_total token amount (total ∷ totals) =
    let rest = add_total token amount totals in
    if total.token_address == token
    then record total { amount = total.amount +ℤ amount } ∷ totals
    else total ∷ rest

unfoldable pub add_streams : List StreamForTokenTotals → List TokenTotal → List TokenTotal
unfolding add_total committed
add_streams [] totals = totals
add_streams (stream ∷ streams) totals =
    add_streams streams (add_total stream.token_address (committed stream) totals)

module _ (locale_le : String → String → Bool) where
  -- A stable sort.
  unfoldable pub insert : TokenTotal → List TokenTotal → List TokenTotal
  insert total [] = total ∷ []
  insert total (other ∷ others) =
      let rest = insert total others in
      if locale_le total.token_address other.token_address
      then total ∷ other ∷ others
      else other ∷ rest

  unfoldable pub sort : List TokenTotal → List TokenTotal
  unfolding insert
  sort [] = []
  sort (total ∷ totals) = insert total (sort totals)

  unfoldable pub committed_totals_by_token : List StreamForTokenTotals → List TokenTotal
  unfolding add_streams sort
  committed_totals_by_token streams = sort (add_streams streams [])
