-- ===== src/Routes/Donors.antt =====
-- src/routes/donors.ts: the ranking of the donors with its pages, and one donor. `localeCompare(…) <= 0`
-- is a parameter.
pub mod Csv
pub mod Totals
pub mod Pages
pub mod Export
pub mod Exported
use streamgive_backend.Prelude.{
  ℕ, suc, ◌+◌, String, Bool, true, false, ◌&&◌, Option, none, some, List, [], ◌∷◌, map, ◌==◌, any,
  find_first, select, count_where, length, take, drop, get_last?, ltb, ltb_ℤ, if◌then◌else◌, ℤ, pos,
  ◌+ℤ◌,
}
use streamgive_backend.Db.{Database, Donor, Stream, StreamStatus, active, cancelled}
use streamgive_backend.Db.Exec.{Result, Env, Exec, pure, ◌>>=◌, query, given}
use streamgive_backend.Routes.Reply.{Reply, refused, replied}
use streamgive_backend.Routes.Keyset.{sort_by}
use streamgive_backend.Routes.TokenTotals.{
  StreamForTokenTotals, TokenTotal, committed_totals_by_token,
}
use streamgive_backend.Routes.Applications.Schema.{
  Field, absent, other, text, Zod, parse_address, parse_optional, when,
}
use streamgive_backend.Routes.Applications.Read.{parse_number}

pub data Sort : Type 0 where
  by_committed by_withdrawn : Sort

pub data Order : Type 0 where
  asc desc : Order

pub record DonorWithTotals : Type 0 where
  pub id : String
  pub address : String
  pub total_committed : ℤ
  pub committed_by_token : List TokenTotal
  pub total_withdrawn : ℤ

-- `z.enum(['committed', 'withdrawn']).default('committed')`
pub parse_sort : Field → Option Sort
parse_sort absent = some by_committed
parse_sort other = none
parse_sort (text s) =
    if s == "committed"
    then some by_committed
    else if s == "withdrawn"
    then some by_withdrawn
    else none

-- `z.enum(['asc', 'desc']).default('desc')`
pub parse_order : Field → Option Order
parse_order absent = some desc
parse_order other = none
parse_order (text s) = if s == "asc" then some asc else if s == "desc" then some desc else none

-- The `reduce` of the committed amounts, from a sum.
unfoldable pub sum_committed : ℤ → List StreamForTokenTotals → ℤ
sum_committed sum [] = sum
sum_committed sum (stream ∷ streams) =
    sum_committed
      (elim stream.status [
        | cancelled ↦ sum +ℤ stream.withdrawn
        | active ↦ (sum +ℤ stream.balance) +ℤ stream.withdrawn
      ])
      streams

unfoldable pub sum_withdrawn : ℤ → List StreamForTokenTotals → ℤ
sum_withdrawn sum [] = sum
sum_withdrawn sum (stream ∷ streams) = sum_withdrawn (sum +ℤ stream.withdrawn) streams

abbrev pub selected : Stream → StreamForTokenTotals
selected stream = record {
  token_address = stream.token_address;
  balance = stream.balance;
  withdrawn = stream.withdrawn;
  status = stream.status;
}

abbrev pub is_of_donor : String → Stream → Bool
is_of_donor id stream = stream.donor_id == id

abbrev pub has_donor_id : String → DonorWithTotals → Bool
has_donor_id id donor = donor.id == id

abbrev pub value : Sort → DonorWithTotals → ℤ
value by_committed donor = donor.total_committed
value by_withdrawn donor = donor.total_withdrawn

-- `ranked.findIndex(…)`
pub find_index : String → List DonorWithTotals → Option ℕ
find_index id [] = none
find_index id (donor ∷ donors) =
    let rest = find_index id donors in
    if has_donor_id id donor then some 0 else elim rest [ none ↦ none | some n ↦ some (suc n) ]

pub record DonorPage : Type 0 where
  pub donors : List DonorWithTotals
  pub next_cursor : Option String

-- `hasMore ? donors[donors.length - 1].id : null`
abbrev pub last_id : List DonorWithTotals → Option String
last_id donors = elim (get_last? donors) [ none ↦ none | some donor ↦ some donor.id ]

-- One donor more than the limit is sliced, to see whether there is a next page.
unfoldable pub page_from : ℕ → ℕ → List DonorWithTotals → DonorPage
page_from start limit ranked =
    let page = take (limit + 1) (drop start ranked) in
    if ltb limit (length page)
    then record { donors = take limit page; next_cursor = last_id (take limit page) }
    else record { donors = page; next_cursor = none }

-- `cursor && …`; a cursor that names no donor is refused.
pub page_at : Option String → ℕ → List DonorWithTotals → Reply DonorPage
unfolding page_from find_index
page_at none limit ranked = replied 200 (page_from 0 limit ranked)
page_at (some cursor) limit ranked = elim (find_index cursor ranked) [
  | none ↦ refused 400 "invalid_request"
  | some n ↦ replied 200 (page_from (suc n) limit ranked)
]

-- The number of different texts: `new Set(texts).size`.
pub count_distinct : List String → ℕ
count_distinct [] = 0
count_distinct (s ∷ rest) = (if any (λ t. t == s) rest then 0 else 1) + count_distinct rest

pub record DonorDetail : Type 0 where
  pub donor : DonorWithTotals
  pub active_stream_count : ℕ
  pub distinct_ngo_count : ℕ

abbrev is_active : Stream → Bool
is_active stream = elim stream.status [ active ↦ true | cancelled ↦ false ]

abbrev pub has_address : String → Donor → Bool
has_address address donor = donor.address == address

module _ (locale_le : String → String → Bool) where
  unfoldable pub with_totals : List Stream → Donor → DonorWithTotals
  unfolding sum_committed sum_withdrawn
  with_totals streams donor =
      let own = map selected (select (is_of_donor donor.id) streams) in
      record {
        id = donor.id;
        address = donor.address;
        total_committed = sum_committed (pos 0) own;
        committed_by_token = committed_totals_by_token locale_le own;
        total_withdrawn = sum_withdrawn (pos 0) own;
      }

  -- The comparison is at most 0.
  abbrev pub ranks_before : Sort → Order → DonorWithTotals → DonorWithTotals → Bool
  ranks_before sort order left right =
      if ltb_ℤ (value sort left) (value sort right)
      then elim order [ asc ↦ true | desc ↦ false ]
      else if ltb_ℤ (value sort right) (value sort left)
      then elim order [ asc ↦ false | desc ↦ true ]
      else locale_le left.id right.id

  -- A stable sort.
  unfoldable pub rank : Sort → Order → List DonorWithTotals → List DonorWithTotals
  rank sort order = sort_by (ranks_before sort order)

  module _ (env : Env) (zod : Zod) (number : String → Option ℤ) where
    -- GET /donors
    pub list_donors : (sort order limit cursor : Field) → Exec (Reply DonorPage)
    unfolding rank with_totals page_at
    list_donors sort order limit cursor =
        let invalid : Exec (Reply DonorPage) = pure (refused 400 "invalid_request") in
        given (parse_sort sort) invalid (λ sort. given (parse_order order) invalid (λ order.
          given (parse_number number 1 100 100 limit) invalid (λ limit.
            given (parse_optional (λ s. when (zod.is_uuid s) s) cursor) invalid (λ cursor. do
              rows ← query env (λ db. map (with_totals db.streams) db.donors)
              pure (page_at cursor limit (rank sort order rows))))))

    pub detail_of : List Stream → Donor → DonorDetail
    unfolding with_totals count_distinct
    detail_of streams donor =
        let own = select (is_of_donor donor.id) streams in
        record {
          donor = with_totals streams donor;
          active_stream_count = count_where is_active own;
          distinct_ngo_count = count_distinct (map (λ (s : Stream). s.ngo_id) own);
        }

    abbrev found_donor : List Stream → Option Donor → Reply DonorDetail
    found_donor streams none = refused 404 "not_found"
    found_donor streams (some donor) = replied 200 (detail_of streams donor)

    -- GET /donors/:address
    pub donor_detail : Field → Exec (Reply DonorDetail)
    unfolding detail_of
    donor_detail address =
        given (parse_address address) (pure (refused 400 "invalid_request")) (λ address.
          query env (λ db. found_donor db.streams (find_first (has_address address) db.donors)))
