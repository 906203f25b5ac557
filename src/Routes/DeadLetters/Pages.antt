-- ===== src/Routes/DeadLetters/Pages.antt =====
-- The pages of GET /admin/dead-letters of src/routes/deadLetters.ts, followed from cursor to cursor.
use streamgive_backend.Prelude.{
  ℕ, zero, suc, ◌+◌, ◌≤◌, ◌<◌, String, Bool, true, false, ◌&&◌, Option, none, some, List, [], ◌∷◌,
  map, find_first, select, count_where, ◌≡◌, inl, inr, refl, sym, ap, ◌∙◌, arith, Bool-cases,
  length, take, ltb,
}
use streamgive_backend.Routes.Keyset.{
  IsRowOrder, IsTextOrder, text-split, sort_by, Page, follow, page_of_rows, is_after_found,
  query_rows,
}
use streamgive_backend.Routes.Keyset.Pages.{follow-listing_of}
use streamgive_backend.Routes.Keyset.Listing.{length-sort_by}
use streamgive_backend.Routes.DeadLetters.{
  DeadLetterRow, DeadLetterPage, row_id, last_row_id, has_row_id, has_resolution, is_behind,
  newest_first, dead_letter_page, list_rows, empty_page,
}

abbrev same : DeadLetterRow → DeadLetterRow
same row = row

map-same : (rows : List DeadLetterRow) → map same rows ≡ rows
map-same [] = refl
map-same (row ∷ rows) = ap (λ rest. row ∷ rest) (map-same rows)

length-select :
    (p : DeadLetterRow → Bool) (rows : List DeadLetterRow)
    → count_where p rows ≡ length (select p rows)
length-select p [] = refl
length-select p (row ∷ rows) = ground (arith, length-select p rows)

select-true :
    (f : DeadLetterRow → Bool) (rows : List DeadLetterRow)
    → select (λ r. f r && true) rows ≡ select f rows
select-true f [] = refl
select-true f (row ∷ rows) = ground (arith, select-true f rows)

select-false :
    (f : DeadLetterRow → Bool) (rows : List DeadLetterRow) → select (λ r. f r && false) rows ≡ []
select-false f [] = refl
select-false f (row ∷ rows) = ground (arith, select-false f rows)

take-nil : (n : ℕ) → take {A = DeadLetterRow} n [] ≡ []
take-nil zero = refl
take-nil (suc n) = refl

page_of_rows-nil : (limit : ℕ) → page_of_rows row_id same limit [] ≡ ([], none)
unfolding page_of_rows
page_of_rows-nil limit = let short : ltb limit 0 ≡ false = ground arith in rw short refl

module _ (id_lt : String → String → Bool) where
  IsRowOrder-is_behind : IsTextOrder id_lt → IsRowOrder (is_behind id_lt) row_id
  IsRowOrder-is_behind laws = record {
    asymmetric = λ a b h. ground (arith, h, laws.asymmetric {s = row_id b} {t = row_id a});
    split = λ a b c h. ground (arith, h, text-split id_lt laws (row_id c) (row_id b) (row_id a));
    total = λ a b h k. ground (arith, h, k, laws.total {s = row_id b} {t = row_id a});
  }

  abbrev shown_page : DeadLetterPage → Page DeadLetterRow
  shown_page page = (page.dead_letters, page.next_cursor)

  shown_page-rows :
      (limit total : ℕ) (rows : List DeadLetterRow)
      → shown_page (dead_letter_page id_lt limit total rows) ≡ page_of_rows row_id same limit rows
  unfolding dead_letter_page page_of_rows
  shown_page-rows limit total rows = elim (Bool-cases (ltb limit (length rows))) [
    | inl e ↦ rw e (λ i. (sym (map-same (take limit rows)) i, last_row_id (take limit rows)))
    | inr e ↦ rw e (λ i. (sym (map-same rows) i, none))
  ]

  total-dead_letter_page :
      (limit total : ℕ) (rows : List DeadLetterRow)
      → (dead_letter_page id_lt limit total rows).total ≡ total
  unfolding dead_letter_page
  total-dead_letter_page limit total rows = elim (Bool-cases (ltb limit (length rows))) [
    | inl e ↦ rw e refl
    | inr e ↦ rw e refl
  ]

  module _ (resolved : Option Bool) (rows : List DeadLetterRow) where
    -- All the dead letters that the filter selects, in their order.
    abbrev pub listing : List DeadLetterRow
    listing = newest_first id_lt (select (has_resolution resolved) rows)

    -- A request for the page behind a cursor.
    abbrev pub fetch_page : (limit : ℕ) → Option String → Page DeadLetterRow
    fetch_page limit cursor = shown_page (list_rows id_lt limit cursor resolved rows)

    abbrev query : ℕ → Option String → List DeadLetterRow
    query = query_rows row_id (is_behind id_lt) (has_resolution resolved) rows

    abbrev total_of : ℕ
    total_of = count_where (has_resolution resolved) rows

    -- A page behind the cursor's row, if there is one.
    abbrev page_behind : ℕ → Option DeadLetterRow → DeadLetterPage
    page_behind limit found = elim found [
      | none ↦ empty_page id_lt total_of
      | some row ↦ dead_letter_page id_lt limit total_of (
          take (limit + 1) (
            sort_by (is_behind id_lt)
              (select (λ r. has_resolution resolved r && is_behind id_lt row r) rows)))
    ]

    page_behind-rows :
        (limit : ℕ) (found : Option DeadLetterRow)
        → shown_page (page_behind limit found)
          ≡ page_of_rows row_id same limit (
              take (limit + 1) (
                sort_by (is_behind id_lt) (
                  select
                    (λ r.
                      has_resolution resolved r
                      && is_after_found row_id
                          (is_behind id_lt)
                          (has_resolution resolved)
                          rows
                          found
                          r)
                    rows)))
    unfolding sort_by
    page_behind-rows limit none =
        let cut = λ (l : List DeadLetterRow).
          page_of_rows row_id same limit (take (limit + 1) (sort_by (is_behind id_lt) l)) in
        sym (
          ap cut (select-false (has_resolution resolved) rows)
          ∙ ap (page_of_rows row_id same limit) (take-nil (limit + 1))
          ∙ page_of_rows-nil limit)
    page_behind-rows limit (some row) = shown_page-rows limit total_of _

    fetch_page-rows :
        (limit : ℕ) (cursor : Option String)
        → fetch_page limit cursor ≡ page_of_rows row_id same limit (query limit cursor)
    unfolding list_rows newest_first query_rows
    fetch_page-rows limit none =
        shown_page-rows limit total_of _
        ∙ ap (λ l. page_of_rows row_id same limit (take (limit + 1) (sort_by (is_behind id_lt) l)))
            (sym (select-true (has_resolution resolved) rows))
    fetch_page-rows limit (some cursor) =
        page_behind-rows limit (find_first (has_row_id cursor) rows)

    total-page_behind :
        (limit : ℕ) (found : Option DeadLetterRow) → (page_behind limit found).total ≡ total_of
    total-page_behind limit none = refl
    total-page_behind limit (some row) = total-dead_letter_page limit total_of _

    total-list_rows :
        (limit : ℕ) (cursor : Option String)
        → (list_rows id_lt limit cursor resolved rows).total ≡ total_of
    unfolding list_rows newest_first
    total-list_rows limit none = total-dead_letter_page limit total_of _
    total-list_rows limit (some cursor) =
        total-page_behind limit (find_first (has_row_id cursor) rows)

    length-listing : total_of ≡ length listing
    unfolding newest_first
    length-listing =
        length-select (has_resolution resolved) rows
        ∙ sym (length-sort_by (is_behind id_lt) (select (has_resolution resolved) rows))

    module _ (laws : IsTextOrder id_lt)
        (unique : (id : String) → count_where (has_row_id id) rows ≤ 1) where
      -- The database comparing ids by a strict total order, the ids being distinct and the table staying
      -- as it is, whatever the filter and the limit from 1 on: a client that follows nextCursor gets every
      -- dead letter that the filter selects exactly once, the newest first, after at most one request more
      -- than there are such rows; and the total of every page, behind any cursor, is their number.
      pub follow-dead_letters :
          (limit requests : ℕ)
          → 0 < limit
          → length listing < requests
          → (follow (fetch_page limit) requests none ≡ listing)
            × ((cursor : Option String)
                → (list_rows id_lt limit cursor resolved rows).total ≡ length listing)
      unfolding newest_first
      follow-dead_letters zero requests p enough = absurd (omega (arith, p))
      follow-dead_letters (suc m) requests p enough = (
        follow-listing_of row_id (is_behind id_lt) (IsRowOrder-is_behind laws)
              (has_resolution resolved) rows unique same m (fetch_page (suc m))
              (fetch_page-rows (suc m)) requests enough
            ∙ map-same listing,
        λ cursor. total-list_rows (suc m) cursor ∙ length-listing,
      )
