-- ===== src/Routes/DeadLetters.antt =====
-- src/routes/deadLetters.ts, on the table that its queries read. A row has its time of creation beside
-- it; the order of the ids in the database is a parameter.
pub mod Pages
use streamgive_backend.Prelude.{
  ℕ, ◌+◌, String, Bool, true, false, not, ◌&&◌, ◌||◌, Option, none, some, List, [], ◌==◌,
  find_first, select, count_where, length, take, get_last?, ltb, nat_eq, if◌then◌else◌, ℤ,
}
use streamgive_backend.Db.{DeadLetter}
use streamgive_backend.Routes.Keyset.{sort_by}
use streamgive_backend.Routes.Reply.{Reply, refused, replied}
use streamgive_backend.Routes.Applications.Schema.{
  Field, absent, other, text, Zod, parse_optional, when,
}
use streamgive_backend.Routes.Applications.Read.{parse_number}

pub record DeadLetterRow : Type 0 where
  pub dead_letter : DeadLetter
  pub created_at : ℕ

pub record DeadLetterPage : Type 0 where
  pub dead_letters : List DeadLetterRow
  pub total : ℕ
  pub has_more : Bool
  pub next_cursor : Option String

-- `z.enum(['true', 'false']).optional()`: `some none` is a filter that is left out.
pub parse_resolved : Field → Option (Option Bool)
parse_resolved absent = some none
parse_resolved other = none
parse_resolved (text s) =
    if s == "true" then some (some true) else if s == "false" then some (some false) else none

abbrev pub row_id : DeadLetterRow → String
row_id row = row.dead_letter.id

abbrev is_resolved : DeadLetterRow → Bool
is_resolved row = elim row.dead_letter.resolved_at [ none ↦ false | some at ↦ true ]

abbrev pub has_resolution : Option Bool → DeadLetterRow → Bool
has_resolution none row = true
has_resolution (some true) row = is_resolved row
has_resolution (some false) row = not (is_resolved row)

abbrev pub has_row_id : String → DeadLetterRow → Bool
has_row_id id row = row_id row == id

abbrev last_row_id : List DeadLetterRow → Option String
last_row_id rows = elim (get_last? rows) [ none ↦ none | some row ↦ some (row_id row) ]

-- `id_lt` compares ids as the database does.
module _ (id_lt : String → String → Bool) where
  -- `OR: [{ createdAt: { lt } }, { createdAt, id: { lt } }]`
  abbrev pub is_behind : DeadLetterRow → DeadLetterRow → Bool
  is_behind cursor row =
      ltb row.created_at cursor.created_at
      || (nat_eq row.created_at cursor.created_at && id_lt (row_id row) (row_id cursor))

  -- `orderBy: [{ createdAt: 'desc' }, { id: 'desc' }]`
  unfoldable pub newest_first : List DeadLetterRow → List DeadLetterRow
  newest_first = sort_by is_behind

  pub dead_letter_page : ℕ → ℕ → List DeadLetterRow → DeadLetterPage
  dead_letter_page limit total rows =
      if ltb limit (length rows)
      then record {
        dead_letters = take limit rows;
        total = total;
        has_more = true;
        next_cursor = last_row_id (take limit rows);
      }
      else record { dead_letters = rows; total = total; has_more = false; next_cursor = none }

  abbrev pub empty_page : ℕ → DeadLetterPage
  empty_page total = record {
    dead_letters = [];
    total = total;
    has_more = false;
    next_cursor = none;
  }

  pub list_rows : ℕ → Option String → Option Bool → List DeadLetterRow → DeadLetterPage
  unfolding dead_letter_page newest_first
  list_rows limit none resolved rows =
      dead_letter_page limit (count_where (has_resolution resolved) rows)
        (take (limit + 1) (newest_first (select (has_resolution resolved) rows)))
  list_rows limit (some cursor) resolved rows = elim (find_first (has_row_id cursor) rows) [
    | none ↦ empty_page (count_where (has_resolution resolved) rows)
    | some row ↦ dead_letter_page limit (count_where (has_resolution resolved) rows) (
        take (limit + 1)
          (newest_first (select (λ r. has_resolution resolved r && is_behind row r) rows)))
  ]

  -- GET /admin/dead-letters
  pub list_dead_letters :
      Zod
      → (String → Option ℤ)
      → (limit cursor resolved : Field) → List DeadLetterRow
      → Reply DeadLetterPage
  unfolding list_rows parse_resolved
  list_dead_letters zod number limit cursor resolved rows =
      elim (parse_number number 1 100 100 limit) [
        | none ↦ refused 400 "invalid_request"
        | some limit ↦ elim (parse_optional (λ s. when (zod.is_uuid s) s) cursor) [
          | none ↦ refused 400 "invalid_request"
          | some cursor ↦ elim (parse_resolved resolved) [
            | none ↦ refused 400 "invalid_request"
            | some resolved ↦ replied 200 (list_rows limit cursor resolved rows)
          ]
        ]
      ]
