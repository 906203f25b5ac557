-- ===== src/Routes/Ngos.antt =====
-- src/routes/ngos.ts, on the tables that its queries read. The order of texts in the database, `ILIKE`
-- and the sorting of rows by dates are parameters; the caching headers and the admin signature are left
-- out.
pub mod Order
pub mod Detail
pub mod Agrees
pub mod Givers
pub mod Admin
pub mod Pages
use streamgive_backend.Prelude.{
  ℕ, zero, suc, ◌+◌, String, Bool, true, false, not, ◌&&◌, ◌||◌, Option, none, some, List, [], ◌∷◌,
  map, ◌==◌, find_first, select, update_where, count_where, any, length, take, drop, get_last?, ltb,
  nat_eq, if◌then◌else◌, ℤ, pos,
}
use streamgive_backend.Db.{
  Stream, StreamStatus, active, cancelled, Donor, NgoApplication, ApplicationStatus,
}
use streamgive_backend.Routes.Reply.{Reply, refused, replied}
use streamgive_backend.Routes.Keyset.{sort_by}
use streamgive_backend.Routes.NgoRows.{NgoRow, get_public_ngo_name, has_id}
use streamgive_backend.Routes.TokenTotals.{TokenTotal, committed_totals_by_token}
use streamgive_backend.Routes.Donors.{sum_committed, sum_withdrawn, selected, count_distinct}
use streamgive_backend.Routes.Impact.{is_active, is_of_ngo}
use streamgive_backend.Routes.Applications.Schema.{
  Field, absent, other, text, Zod, parse_uuid, parse_optional, parse_address, when, at_most,
}
use streamgive_backend.Routes.Applications.Read.{parse_number}

-- `z.enum(['newest', 'oldest', 'name']).default('newest')`
pub data Sort : Type 0 where
  newest oldest by_name : Sort

pub parse_sort : Field → Option Sort
parse_sort absent = some newest
parse_sort other = none
parse_sort (text s) =
    if s == "newest"
    then some newest
    else if s == "oldest"
    then some oldest
    else if s == "name"
    then some by_name
    else none

-- `COALESCE(NULLIF(display_name, ''), name)`
abbrev pub public_name : NgoRow → String
public_name ngo = elim ngo.display_name [
  | none ↦ ngo.name
  | some shown ↦ if shown == "" then ngo.name else shown
]

-- A row of GET /ngos, with its public name.
pub record NgoSummary : Type 0 where
  pub ngo : NgoRow
  pub name : Option String

pub record NgoPage : Type 0 where
  pub ngos : List NgoSummary
  pub next_cursor : Option String

abbrev pub summary : NgoRow → NgoSummary
summary ngo = record { ngo = ngo; name = get_public_ngo_name ngo }

abbrev pub last_id : List NgoRow → Option String
last_id rows = elim (get_last? rows) [ none ↦ none | some ngo ↦ some ngo.id ]

-- The page of the rows, of which the query returned one more than the limit if there are more.
unfoldable pub page_of : ℕ → List NgoRow → NgoPage
page_of limit rows =
    if ltb limit (length rows)
    then record { ngos = map summary (take limit rows); next_cursor = last_id (take limit rows) }
    else record { ngos = map summary rows; next_cursor = none }

-- `text_lt` compares texts as the database does.
module _ (text_lt : String → String → Bool) where
  -- The key that the sort mode orders by.
  abbrev pub key_before : Sort → NgoRow → NgoRow → Bool
  key_before by_name a b = text_lt (public_name a) (public_name b)
  key_before oldest a b = ltb a.created_at b.created_at
  key_before newest a b = ltb b.created_at a.created_at

  abbrev pub key_same : Sort → NgoRow → NgoRow → Bool
  key_same by_name a b = public_name a == public_name b
  key_same oldest a b = nat_eq a.created_at b.created_at
  key_same newest a b = nat_eq a.created_at b.created_at

  -- The conditions on the cursor's row, and the `ORDER BY`: the key, then the id.
  unfoldable pub before : Sort → NgoRow → NgoRow → Bool
  before sort a b = key_before sort a b || (key_same sort a b && text_lt a.id b.id)

  unfoldable pub order_by : Sort → List NgoRow → List NgoRow
  order_by sort ngos = sort_by (before sort) ngos

-- `ilike q name` is `name ILIKE '%' || q || '%'`.
module _ (text_lt : String → String → Bool) (ilike : String → String → Bool) where
  -- `verified = TRUE`, and the search.
  abbrev pub is_listed : Option String → NgoRow → Bool
  is_listed none ngo = ngo.verified
  is_listed (some q) ngo = ngo.verified && ilike q (public_name ngo)

  -- `EXISTS (SELECT 1 FROM cursor_ngo …)`
  abbrev pub is_after_row : Sort → Option NgoRow → NgoRow → Bool
  is_after_row sort none ngo = false
  is_after_row sort (some row) ngo = before text_lt sort row ngo

  -- No cursor, or a row behind the cursor's.
  abbrev pub is_after : Sort → List NgoRow → Option String → NgoRow → Bool
  is_after sort ngos none ngo = true
  is_after sort ngos (some cursor) ngo = is_after_row sort (find_first (has_id cursor) ngos) ngo

  abbrev pub matches : Sort → Option String → Option String → List NgoRow → NgoRow → Bool
  matches sort q cursor ngos ngo = is_listed q ngo && is_after sort ngos cursor ngo

  -- The query, with its `LIMIT`.
  unfoldable pub query_ngos : ℕ → Sort → Option String → Option String → List NgoRow → List NgoRow
  unfolding order_by
  query_ngos limit sort q cursor ngos =
      take (limit + 1) (order_by text_lt sort (select (matches sort q cursor ngos) ngos))

  unfoldable pub list_page : ℕ → Sort → Option String → Option String → List NgoRow → NgoPage
  list_page limit sort q cursor ngos = page_of limit (query_ngos limit sort q cursor ngos)

  -- GET /ngos
  pub list_ngos :
      Zod → (String → Option ℤ) → (limit cursor sort q : Field) → List NgoRow → Reply NgoPage
  list_ngos zod number limit cursor sort q ngos = elim (parse_number number 1 100 100 limit) [
    | none ↦ refused 400 "invalid_request"
    | some limit ↦ elim (parse_optional (λ s. when (zod.is_uuid s) s) cursor) [
      | none ↦ refused 400 "invalid_request"
      | some cursor ↦ elim (parse_sort sort) [
        | none ↦ refused 400 "invalid_request"
        | some sort ↦ elim (parse_optional (at_most 100) q) [
          | none ↦ refused 400 "invalid_request"
          | some q ↦ replied 200 (list_page limit sort q cursor ngos)
        ]
      ]
    ]
  ]
