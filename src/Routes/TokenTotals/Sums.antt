-- ===== src/Routes/TokenTotals/Sums.antt =====
-- Each token of the streams has one entry in the totals, and it holds the sum of its streams.
use streamgive_backend.Prelude.{
  ◌+◌, ◌≤◌, ltb, String, Bool, true, false, ◌≡◌, refl, sym, ap, ◌∙◌, List, [], ◌∷◌, ℤ, ◌+ℤ◌, pos,
  ◌==◌, any, count_where, if◌then◌else◌, arith, int_laws, Bool-cases, inl, inr, eq_iff,
}
use streamgive_backend.Db.{active, cancelled}
use streamgive_backend.Routes.TokenTotals.{
  StreamForTokenTotals, TokenTotal, committed, add_total, add_streams, insert, sort,
  committed_totals_by_token,
}

pub +ℤ_assoc : (a b c : ℤ) → (a +ℤ b) +ℤ c ≡ a +ℤ (b +ℤ c)
+ℤ_assoc a b c = grind int_laws

pub +ℤ_swap : (a b c : ℤ) → a +ℤ (b +ℤ c) ≡ b +ℤ (a +ℤ c)
+ℤ_swap a b c = grind int_laws

pub +ℤ_zero : (a : ℤ) → pos 0 +ℤ a ≡ a
+ℤ_zero a = grind int_laws

pub +ℤ_right_zero : (a : ℤ) → a +ℤ pos 0 ≡ a
+ℤ_right_zero a = grind int_laws

abbrev pub has_token : String → TokenTotal → Bool
has_token token total = total.token_address == token

abbrev pub of_token : String → StreamForTokenTotals → Bool
of_token token stream = stream.token_address == token

-- The amounts of the entries of a token, and of its streams.
abbrev pub sum_of : String → List TokenTotal → ℤ
sum_of token [] = pos 0
sum_of token (total ∷ totals) =
    (if has_token token total then total.amount else pos 0) +ℤ sum_of token totals

-- What a stream counts for.
abbrev pub amount_of : StreamForTokenTotals → ℤ
amount_of stream = elim stream.status [
  | cancelled ↦ stream.withdrawn
  | active ↦ stream.balance +ℤ stream.withdrawn
]

committed-amount_of : (stream : StreamForTokenTotals) → committed stream ≡ amount_of stream
unfolding committed
committed-amount_of stream = ground arith

pub sum_of_streams : String → List StreamForTokenTotals → ℤ
sum_of_streams token [] = pos 0
sum_of_streams token (stream ∷ streams) =
    (if of_token token stream then amount_of stream else pos 0) +ℤ sum_of_streams token streams

sum_of-insert :
    (le : String → String → Bool) (token : String) (total : TokenTotal) (totals : List TokenTotal)
    → sum_of token (insert le total totals) ≡ sum_of token (total ∷ totals)
unfolding insert
sum_of-insert le token total [] = refl
sum_of-insert le token total (other ∷ others) =
    let share = λ (t : TokenTotal). if has_token token t then t.amount else pos 0 in
    let rest = sum_of-insert le token total others in
    elim (Bool-cases (le total.token_address other.token_address)) [
      | inl e ↦ rw e refl
      | inr e ↦ rw e (
          ap (λ (x : ℤ). share other +ℤ x) rest
          ∙ +ℤ_swap (share other) (share total) (sum_of token others))
    ]

count-insert :
    (le : String → String → Bool) (token : String) (total : TokenTotal) (totals : List TokenTotal)
    → count_where (has_token token) (insert le total totals)
      ≡ count_where (has_token token) (total ∷ totals)
unfolding insert
count-insert le token total [] = refl
count-insert le token total (other ∷ others) =
    let rest = count-insert le token total others in
    elim (Bool-cases (le total.token_address other.token_address)) [
      | inl e ↦ rw e refl
      | inr e ↦ rw e (omega (arith, rest))
    ]

-- An entry of the token of a new amount takes it in.
taken_in :
    (b : Bool) (old new rest : ℤ)
    → (if b then old +ℤ new else pos 0) +ℤ rest
      ≡ (if b then new else pos 0) +ℤ ((if b then old else pos 0) +ℤ rest)
taken_in true old new rest = grind int_laws
taken_in false old new rest = grind int_laws

sum_of-add_total :
    (token new : String) (amount : ℤ) (totals : List TokenTotal)
    → sum_of token (add_total new amount totals)
      ≡ (if new == token then amount else pos 0) +ℤ sum_of token totals
unfolding add_total
sum_of-add_total token new amount [] = rw (+ℤ_zero amount) refl
sum_of-add_total token new amount (total ∷ totals) =
    let share = λ (t : TokenTotal). if has_token token t then t.amount else pos 0 in
    let rest = sum_of-add_total token new amount totals in
    elim (Bool-cases (total.token_address == new)) [
      | inl e ↦
          let same = ap (λ (x : String). x == token) ((eq_iff total.token_address new).0 e) in
          rw (e, same) (taken_in (new == token) total.amount amount (sum_of token totals))
      | inr e ↦ rw e (
          ap (λ (x : ℤ). share total +ℤ x) rest
          ∙ +ℤ_swap (share total) (if new == token then amount else pos 0) (sum_of token totals))
    ]

-- One entry if there is one, or else one for the new amount.
count-add_total :
    (token new : String) (amount : ℤ) (totals : List TokenTotal)
    → count_where (has_token token) (add_total new amount totals) ≡ (
        if any (has_token new) totals
        then count_where (has_token token) totals
        else (if new == token then 1 else 0) + count_where (has_token token) totals)
unfolding add_total
count-add_total token new amount [] = refl
count-add_total token new amount (total ∷ totals) =
    let rest = count-add_total token new amount totals in
    elim (Bool-cases (total.token_address == new)) [
      | inl e ↦ rw e refl
      | inr e ↦ ground (arith, rest, e)
    ]

sum_of-add_streams :
    (token : String) (streams : List StreamForTokenTotals) (totals : List TokenTotal)
    → sum_of token (add_streams streams totals)
      ≡ sum_of_streams token streams +ℤ sum_of token totals
unfolding add_streams sum_of_streams
sum_of-add_streams token [] totals = sym (+ℤ_zero (sum_of token totals))
sum_of-add_streams token (stream ∷ streams) totals =
    let new = committed stream in
    let share = if of_token token stream then new else pos 0 in
    let after = add_total stream.token_address new totals in
    sum_of-add_streams token streams after
    ∙ ap (λ (x : ℤ). sum_of_streams token streams +ℤ x)
        (sum_of-add_total token stream.token_address new totals)
    ∙ +ℤ_swap (sum_of_streams token streams) share (sum_of token totals)
    ∙ ap
        (λ (x : ℤ).
          (if of_token token stream then x else pos 0)
          +ℤ (sum_of_streams token streams +ℤ sum_of token totals))
        (committed-amount_of stream)
    ∙ sym (
        +ℤ_assoc (if of_token token stream then amount_of stream else pos 0)
          (sum_of_streams token streams) (sum_of token totals))

sum_of-sort :
    (le : String → String → Bool) (token : String) (totals : List TokenTotal)
    → sum_of token (sort le totals) ≡ sum_of token totals
unfolding sort
sum_of-sort le token [] = refl
sum_of-sort le token (total ∷ totals) =
    let share = if has_token token total then total.amount else pos 0 in
    sum_of-insert le token total (sort le totals)
    ∙ ap (λ (x : ℤ). share +ℤ x) (sum_of-sort le token totals)

count-sort :
    (le : String → String → Bool) (token : String) (totals : List TokenTotal)
    → count_where (has_token token) (sort le totals) ≡ count_where (has_token token) totals
unfolding sort
count-sort le token [] = refl
count-sort le token (total ∷ totals) =
    let step = count-insert le token total (sort le totals) in
    let rest = count-sort le token totals in omega (arith, step, rest)

any-count :
    (token : String) (totals : List TokenTotal)
    → any (has_token token) totals ≡ ltb 0 (count_where (has_token token) totals)
any-count token [] = refl
any-count token (total ∷ totals) = ground (arith, any-count token totals)

one-add_total :
    (token new : String) (amount : ℤ) (totals : List TokenTotal)
    → count_where (has_token token) totals ≤ 1
    → count_where (has_token token) (add_total new amount totals)
      ≡ (if new == token then 1 else count_where (has_token token) totals)
one-add_total token new amount totals h =
    let counted = count-add_total token new amount totals in
    let present = any-count token totals in
    elim (Bool-cases (new == token)) [
      | inl e ↦
          let same = (eq_iff new token).0 e in
          let there = ap (λ (x : String). any (has_token x) totals) same in
          ground (arith, counted, present, there, e, h)
      | inr e ↦ ground (arith, counted, e)
    ]

count-add_streams :
    (token : String) (streams : List StreamForTokenTotals) (totals : List TokenTotal)
    → count_where (has_token token) totals ≤ 1
    → count_where (has_token token) (add_streams streams totals)
      ≡ (if any (of_token token) streams then 1 else count_where (has_token token) totals)
unfolding add_streams
count-add_streams token [] totals h = refl
count-add_streams token (stream ∷ streams) totals h =
    let after = add_total stream.token_address (committed stream) totals in
    let one = one-add_total token stream.token_address (committed stream) totals h in
    ground (arith, count-add_streams token streams after (ground (arith, one, h)), one)

-- Whatever the order of the tokens, a token has one entry in the totals if a stream has it, and none
-- if not, and its entries add up to what its streams have committed: the withdrawn amount of a
-- cancelled stream, and balance and withdrawn amount of an active one.
pub committed_totals_by_token-sums :
    (locale_le : String → String → Bool) (streams : List StreamForTokenTotals) (token : String)
    → let totals = committed_totals_by_token locale_le streams in
      (count_where (has_token token) totals ≡ (if any (of_token token) streams then 1 else 0))
      × (sum_of token totals ≡ sum_of_streams token streams)
unfolding committed_totals_by_token
committed_totals_by_token-sums le streams token =
    let added = add_streams streams [] in
    (
      count-sort le token added ∙ count-add_streams token streams [] (omega arith),
      sum_of-sort le token added
          ∙ sum_of-add_streams token streams []
          ∙ +ℤ_right_zero (sum_of_streams token streams),
    )
