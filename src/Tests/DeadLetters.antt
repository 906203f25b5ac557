-- ===== src/Tests/DeadLetters.antt =====
-- The pages of the dead letters, at three rows.
use streamgive_backend.Prelude.{
  ℕ, ◌≤◌, ◌<◌, String, false, Option, none, some, List, [], ◌∷◌, count_where, ◌≡◌, refl, arith,
  length,
}
use streamgive_backend.Routes.Keyset.{insert_by, sort_by, follow}
use streamgive_backend.Routes.DeadLetters.{DeadLetterRow, has_row_id, newest_first, list_rows}
use streamgive_backend.Routes.DeadLetters.Pages.{listing, fetch_page, follow-dead_letters}
use streamgive_backend.Tests.Fixtures.{dead_letter}
use streamgive_backend.Tests.TextOrder.{text_lt, text_lt-IsTextOrder, distinct}

abbrev failed : String → ℕ → Option ℕ → DeadLetterRow
failed id at resolved_at = record {
  dead_letter = record dead_letter { id = id; resolved_at = resolved_at };
  created_at = at;
}

-- Two dead letters of the same time, and one that is resolved.
abbrev rows : List DeadLetterRow
rows = failed "a" 5 none ∷ failed "b" 7 (some 9) ∷ failed "c" 5 none ∷ []

rows_unique : (id : String) → count_where (has_row_id id) rows ≤ 1
rows_unique id =
    ground (arith, distinct "a" "b" id refl, distinct "a" "c" id refl, distinct "b" "c" id refl)

in_order : listing text_lt (some false) rows ≡ failed "c" 5 none ∷ failed "a" 5 none ∷ []
unfolding newest_first sort_by insert_by
in_order = refl

short : length (listing text_lt (some false) rows) < 3
short = rw in_order (omega arith)

-- The unresolved ones, on pages of one.
follow-dead_letters_example :
    (follow (fetch_page text_lt (some false) rows 1) 3 none ≡ listing text_lt (some false) rows)
    × ((cursor : Option String)
        → (list_rows text_lt 1 cursor (some false) rows).total
          ≡ length (listing text_lt (some false) rows))
follow-dead_letters_example =
    follow-dead_letters text_lt (some false) rows text_lt-IsTextOrder rows_unique 1 3 (omega arith)
      short
