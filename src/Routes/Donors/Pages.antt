-- ===== src/Routes/Donors/Pages.antt =====
-- The pages of the ranking of src/routes/donors.ts, followed from cursor to cursor.
use streamgive_backend.Prelude.{
  ℕ, zero, suc, ◌+◌, ◌<◌, ◌≤◌, String, ◌≡◌, refl, sym, ap, ◌∙◌, Bool, Option, none, some, List, [],
  ◌∷◌, ◌++◌, map, ◌==◌, length, take, drop, count_where, ltb, if◌then◌else◌, Bool-cases, inl, inr,
  arith, eq_refl, count_where-append,
}
use streamgive_backend.Db.{Stream, Donor}
use streamgive_backend.Routes.Reply.{Reply, refused, replied}
use streamgive_backend.Routes.Keyset.{Page, follow, page_of_rows}
use streamgive_backend.Routes.Keyset.Listing.{count-sort_by, length-sort_by}
use streamgive_backend.Routes.Keyset.Follow.{follow-every}
use streamgive_backend.Routes.Donors.{
  Sort, Order, DonorWithTotals, DonorPage, has_donor_id, find_index, page_from, page_at, rank,
  ranks_before, with_totals, last_id,
}

-- The donors of an answer and the cursor for the next request; a refusal ends the following.
abbrev shown_page : Reply DonorPage → Page DonorWithTotals
shown_page (refused status problem) = ([], none)
shown_page (replied status page) = (page.donors, page.next_cursor)

abbrev pub fetch_page : (limit : ℕ) → List DonorWithTotals → Option String → Page DonorWithTotals
fetch_page limit ranked cursor = shown_page (page_at cursor limit ranked)

abbrev pub is_row_of : String → Donor → Bool
is_row_of id donor = donor.id == id

abbrev id_of : DonorWithTotals → String
id_of donor = donor.id

abbrev same : DonorWithTotals → DonorWithTotals
same donor = donor

map-same : (donors : List DonorWithTotals) → map same donors ≡ donors
map-same [] = refl
map-same (donor ∷ donors) = ap (λ rest. donor ∷ rest) (map-same donors)

page_from-rows :
    (start limit : ℕ) (ranked : List DonorWithTotals)
    → shown_page (replied 200 (page_from start limit ranked))
      ≡ page_of_rows id_of same limit (take (limit + 1) (drop start ranked))
unfolding page_from page_of_rows
page_from-rows start limit ranked =
    let page = take (limit + 1) (drop start ranked) in
    elim (Bool-cases (ltb limit (length page))) [
      | inl e ↦ rw e (λ i. (sym (map-same (take limit page)) i, last_id (take limit page)))
      | inr e ↦ rw e (λ i. (sym (map-same page) i, none))
    ]

drop-length :
    (xs : List DonorWithTotals) (c : DonorWithTotals) (ys : List DonorWithTotals)
    → drop (suc (length xs)) (xs ++ c ∷ ys) ≡ ys
drop-length [] c ys = refl
drop-length (x ∷ xs) c ys = drop-length xs c ys

find_index-at :
    (xs : List DonorWithTotals) (c : DonorWithTotals) (ys : List DonorWithTotals)
    → count_where (has_donor_id c.id) (xs ++ c ∷ ys) ≤ 1
    → find_index c.id (xs ++ c ∷ ys) ≡ some (length xs)
unfolding find_index
find_index-at [] c ys u = rw (eq_refl c.id) refl
find_index-at (x ∷ xs) c ys u =
    let there = count_where-append (has_donor_id c.id) xs (c ∷ ys) in
    elim (Bool-cases (has_donor_id c.id x)) [
      | inl e ↦ absurd (ground (arith, e, u, there, eq_refl c.id))
      | inr e ↦ let later = find_index-at xs c ys (ground (arith, e, u)) in rw e (rw later refl)
    ]

page_at-behind :
    (limit : ℕ) (ranked xs : List DonorWithTotals) (c : DonorWithTotals) (ys : List DonorWithTotals)
    → ((id : String) → count_where (has_donor_id id) ranked ≤ 1)
    → ranked ≡ xs ++ c ∷ ys
    → fetch_page limit ranked (some c.id) ≡ page_of_rows id_of same limit (take (limit + 1) ys)
unfolding page_at
page_at-behind limit ranked xs c ys u e =
    let once : count_where (has_donor_id c.id) (xs ++ c ∷ ys) ≤ 1 = rw (sym e) (u c.id) in
    let found = ap (find_index c.id) e ∙ find_index-at xs c ys once in
    let start = suc (length xs) in
    let rows = ap (drop start) e ∙ drop-length xs c ys in
    let answer : page_at (some c.id) limit ranked ≡ replied 200 (page_from start limit ranked) =
      rw (found, page_at) refl in
    ap shown_page answer
    ∙ page_from-rows start limit ranked
    ∙ ap (λ l. page_of_rows id_of same limit (take (limit + 1) l)) rows

count-map :
    (locale_le : String → String → Bool) (streams : List Stream) (donors : List Donor) (id : String)
    → count_where (has_donor_id id) (map (with_totals locale_le streams) donors)
      ≡ count_where (is_row_of id) donors
unfolding with_totals
count-map locale_le streams [] id = refl
count-map locale_le streams (donor ∷ donors) id =
    ap (λ n. (if donor.id == id then 1 else 0) + n) (count-map locale_le streams donors id)

length-map :
    (f : Donor → DonorWithTotals) (donors : List Donor) → length (map f donors) ≡ length donors
length-map f [] = refl
length-map f (donor ∷ donors) = ap suc (length-map f donors)

module _ (locale_le : String → String → Bool) (sort : Sort) (order : Order) (streams : List Stream)
    (donors : List Donor) where
  -- The donors with their totals, in the order that was asked for.
  abbrev pub ranking : List DonorWithTotals
  ranking = rank locale_le sort order (map (with_totals locale_le streams) donors)

  count-ranking :
      (id : String) → count_where (has_donor_id id) ranking ≡ count_where (is_row_of id) donors
  unfolding rank
  count-ranking id =
      count-sort_by (ranks_before locale_le sort order) (has_donor_id id)
        (map (with_totals locale_le streams) donors)
      ∙ count-map locale_le streams donors id

  length-ranking : length ranking ≡ length donors
  unfolding rank
  length-ranking =
      length-sort_by (ranks_before locale_le sort order)
        (map (with_totals locale_le streams) donors)
      ∙ length-map (with_totals locale_le streams) donors

  -- The ids of the donors being distinct and the tables staying as they are, whatever the limit from 1
  -- on: a client that follows nextCursor gets exactly the ranking, in its order, after at most one
  -- request more than there are donors; and the ranking has every id of the table as often as the table.
  pub follow-ranking :
      (limit requests : ℕ)
      → ((id : String) → count_where (is_row_of id) donors ≤ 1)
      → 0 < limit
      → length donors < requests
      → (follow (fetch_page limit ranking) requests none ≡ ranking)
        × ((id : String)
            → count_where (has_donor_id id) ranking ≡ count_where (is_row_of id) donors)
  unfolding page_at
  follow-ranking zero requests u p enough = absurd (omega (arith, p))
  follow-ranking (suc m) requests u p enough = (
    follow-every id_of same m (fetch_page (suc m) ranking) ranking
          (page_from-rows 0 (suc m) ranking)
          (λ xs c ys.
            page_at-behind (suc m) ranking xs c ys (λ id. omega (arith, u id, count-ranking id)))
          requests (omega (arith, length-ranking, enough))
        ∙ map-same ranking,
    count-ranking,
  )
