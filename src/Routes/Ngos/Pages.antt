-- ===== src/Routes/Ngos/Pages.antt =====
-- The pages of GET /ngos of src/routes/ngos.ts, followed from cursor to cursor.
use streamgive_backend.Prelude.{
  ℕ, zero, suc, ◌+◌, ◌≤◌, ◌<◌, String, Bool, ◌&&◌, find_first, take, Option, none, some, List, map,
  select, count_where, ◌≡◌, inl, inr, refl, ap, ◌∙◌, arith, Bool-cases, length, ltb,
}
use streamgive_backend.Routes.NgoRows.{NgoRow, has_id}
use streamgive_backend.Routes.Keyset.{
  IsTextOrder, Page, follow, page_of_rows, is_after_found, query_rows,
}
use streamgive_backend.Routes.Keyset.Pages.{follow-listing_of}
use streamgive_backend.Routes.Ngos.{
  Sort, before, order_by, is_listed, is_after_row, query_ngos, list_page, page_of, NgoPage,
  NgoSummary, summary,
}
use streamgive_backend.Routes.Ngos.Order.{IsRowOrder-before}

abbrev shown_page : NgoPage → Page NgoSummary
shown_page page = (page.ngos, page.next_cursor)

page_of-shown :
    (limit : ℕ) (rows : List NgoRow)
    → shown_page (page_of limit rows) ≡ page_of_rows (λ (ngo : NgoRow). ngo.id) summary limit rows
unfolding page_of page_of_rows
page_of-shown limit rows = elim (Bool-cases (ltb limit (length rows))) [
  | inl e ↦ rw e refl
  | inr e ↦ rw e refl
]

module _ (text_lt : String → String → Bool) (ilike : String → String → Bool) (sort : Sort)
    (q : Option String) (ngos : List NgoRow) where
  -- All the rows of the directory, in its order.
  abbrev pub listing : List NgoRow
  listing = order_by text_lt sort (select (is_listed text_lt ilike q) ngos)

  -- A request for the page behind a cursor.
  abbrev pub fetch_page : (limit : ℕ) → Option String → Page NgoSummary
  fetch_page limit cursor = shown_page (list_page text_lt ilike limit sort q cursor ngos)

  is_after_row-found :
      (found : Option NgoRow)
      → is_after_row text_lt ilike sort found
        ≡ is_after_found
            (λ (ngo : NgoRow). ngo.id)
            (before text_lt sort)
            (is_listed text_lt ilike q)
            ngos
            found
  is_after_row-found none = refl
  is_after_row-found (some row) = refl

  query_ngos-rows :
      (limit : ℕ) (cursor : Option String)
      → query_ngos text_lt ilike limit sort q cursor ngos
        ≡ query_rows
            (λ (ngo : NgoRow). ngo.id)
            (before text_lt sort)
            (is_listed text_lt ilike q)
            ngos
            limit
            cursor
  unfolding query_ngos order_by query_rows
  query_ngos-rows limit none = refl
  query_ngos-rows limit (some cursor) =
      ap
        (λ after.
          take (limit + 1)
            (order_by text_lt sort (select (λ r. is_listed text_lt ilike q r && after r) ngos)))
        (is_after_row-found (find_first (has_id cursor) ngos))

  module _ (laws : IsTextOrder text_lt)
      (unique : (id : String) → count_where (has_id id) ngos ≤ 1) where
    -- The database comparing texts by a strict total order, the ids being distinct and the table staying
    -- as it is, whatever the sort mode, the search and the limit from 1 on: a client that follows
    -- nextCursor gets every NGO of the directory that the search selects exactly once, in the order of
    -- the sort mode, after at most one request more than there are such NGOs.
    pub follow-listing :
        (limit requests : ℕ)
        → 0 < limit
        → length listing < requests
        → follow (fetch_page limit) requests none ≡ map summary listing
    unfolding list_page order_by
    follow-listing zero requests p enough = absurd (omega (arith, p))
    follow-listing (suc m) requests p enough =
        follow-listing_of (λ (ngo : NgoRow). ngo.id) (before text_lt sort)
          (IsRowOrder-before text_lt laws sort) (is_listed text_lt ilike q) ngos unique summary m
          (fetch_page (suc m))
          (λ cursor.
            page_of-shown (suc m) (query_ngos text_lt ilike (suc m) sort q cursor ngos)
            ∙ ap (page_of_rows (λ (ngo : NgoRow). ngo.id) summary (suc m))
                (query_ngos-rows (suc m) cursor))
          requests enough
