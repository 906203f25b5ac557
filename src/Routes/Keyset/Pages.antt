-- ===== src/Routes/Keyset/Pages.antt =====
-- A client that follows the cursors of a listing.
use mathlib.Core.Path.{subst}
use streamgive_backend.Prelude.{
  ℕ, suc, ◌+◌, ◌≤◌, ◌<◌, String, Bool, true, false, ◌&&◌, Option, none, some, List, [], ◌∷◌, ◌++◌,
  map, eq_iff, eq_refl, find_first, select, count_where, ◌≡◌, inl, inr, refl, sym, ap, ◌∙◌, arith,
  Bool-cases, Option-cases, All, All-found, count_where-append, length, take,
}
use streamgive_backend.Routes.Keyset.{
  sort_by, IsRowOrder, Page, follow, has_row_key, page_of_rows, is_after_found, query_rows,
  listing_of,
}
use streamgive_backend.Routes.Keyset.Listing.{
  All-select, All-at, All-sort_by, select-and, select_every, select-none, count-sort_by, Sorted,
  Sorted-sort_by, select-sort_by,
}
use streamgive_backend.Routes.Keyset.Follow.{follow-every}

module _ {A : Type 0} (id : A → String) where
  none-found :
      (key : String) (rows : List A)
      → find_first (has_row_key id key) rows ≡ none
      → All (λ r. has_row_key id key r ≡ false) rows
  none-found key [] h = tt
  none-found key (x ∷ xs) h = elim (Bool-cases (has_row_key id key x)) [
    | inl e ↦ absurd (ground (arith, e, h))
    | inr e ↦ (e, none-found key xs (ground (arith, e, h)))
  ]

  none-counted :
      (key : String) (rows : List A)
      → count_where (has_row_key id key) rows ≡ 0
      → All (λ r. has_row_key id key r ≡ false) rows
  none-counted key [] h = tt
  none-counted key (x ∷ xs) h = elim (Bool-cases (has_row_key id key x)) [
    | inl e ↦ absurd (ground (arith, e, h))
    | inr e ↦ (e, none-counted key xs (ground (arith, e, h)))
  ]

  count-select :
      (q f : A → Bool) (rows : List A) → count_where q (select f rows) ≤ count_where q rows
  count-select q f [] = omega arith
  count-select q f (x ∷ xs) = ground (arith, count-select q f xs)

  module _ (before : A → A → Bool) (laws : IsRowOrder before id) (listed : A → Bool) (rows : List A)
      (unique : (key : String) → count_where (has_row_key id key) rows ≤ 1) where
    abbrev listing : List A
    listing = listing_of id before listed rows

    row-at :
        (xs : List A) (c : A) (ys : List A)
        → listing ≡ xs ++ c ∷ ys
        → find_first (has_row_key id (id c)) rows ≡ some c
    row-at xs c ys e = elim (Option-cases (find_first (has_row_key id (id c)) rows)) [
      | inl missing ↦
          let all =
            All-sort_by before (λ r. has_row_key id (id c) r ≡ false) _
              (All-select _ listed rows (none-found (id c) rows missing)) in
          let (_, here, _) =
            All-at _ xs c ys (subst (All (λ r. has_row_key id (id c) r ≡ false)) e all) in
          absurd (ground (arith, here, eq_refl (id c)))
      | inr (r, found) ↦
          let all =
            All-sort_by before (λ x. has_row_key id (id c) x ≡ true → x ≡ r) _
              (All-select _ listed rows
                (All-found (has_row_key id (id c)) rows r (unique (id c)) found)) in
          let (_, here, _) =
            All-at _ xs c ys (subst (All (λ x. has_row_key id (id c) x ≡ true → x ≡ r)) e all) in
          found ∙ ap some (sym (here (eq_refl (id c))))
    ]

    Sorted-at :
        (xs : List A) (c : A) (ys : List A)
        → Sorted before (xs ++ c ∷ ys)
        → All (λ x. before c x ≡ false) xs × All (λ y. before y c ≡ false) ys
    Sorted-at [] c ys (h, hs) = (tt, h)
    Sorted-at (x ∷ xs) c ys (h, hs) =
        let (a, b) = Sorted-at xs c ys hs in let (_, here, _) = All-at _ xs c ys h in ((here, a), b)

    only-at :
        (xs : List A) (c : A) (ys : List A)
        → listing ≡ xs ++ c ∷ ys
        → count_where (has_row_key id (id c)) ys ≡ 0
    only-at xs c ys e = ground (
      arith,
      ap (count_where (has_row_key id (id c))) e,
      count-sort_by before (has_row_key id (id c)) (select listed rows),
      count-select (has_row_key id (id c)) listed rows,
      unique (id c),
      count_where-append (has_row_key id (id c)) xs (c ∷ ys),
      eq_refl (id c),
    )

    follows :
        (c : A) (ys : List A)
        → All (λ y. before y c ≡ false) ys
        → All (λ y. has_row_key id (id c) y ≡ false) ys
        → All (λ y. before c y ≡ true) ys
    follows c [] h u = tt
    follows c (y ∷ ys) (h, hs) (u, us) = elim (Bool-cases (before c y)) [
      | inl e ↦ (e, follows c ys hs us)
      | inr e ↦ absurd (ground (arith, u, laws.total y c h e, eq_iff (id y) (id c)))
    ]

    after-at :
        (xs : List A) (c : A) (ys : List A)
        → listing ≡ xs ++ c ∷ ys
        → select (before c) listing ≡ ys
    after-at xs c ys e =
        let (early, late) =
          Sorted-at xs c ys (subst (Sorted before) e (Sorted-sort_by before id laws _)) in
        let own : before c c ≡ false = ground (arith, laws.asymmetric c c) in
        ap (select (before c)) e
        ∙ select-none (before c) xs (c ∷ ys) early
        ∙ rw own (
            select_every (before c) ys
              (follows c ys late (none-counted (id c) ys (only-at xs c ys e))))

    -- The rows behind a cursor that stands in the listing.
    query-at :
        (limit : ℕ) (xs : List A) (c : A) (ys : List A)
        → listing ≡ xs ++ c ∷ ys
        → query_rows id before listed rows limit (some (id c)) ≡ take (limit + 1) ys
    unfolding query_rows
    query-at limit xs c ys e =
        let found = ap (is_after_found id before listed rows) (row-at xs c ys e) in
        ap (λ after. take (limit + 1) (sort_by before (select (λ r. listed r && after r) rows)))
          found
        ∙ ap (λ l. take (limit + 1) (sort_by before l)) (select-and listed (before c) rows)
        ∙ ap (take (limit + 1))
            (sym (select-sort_by before id laws (before c) (select listed rows)))
        ∙ ap (take (limit + 1)) (after-at xs c ys e)

    every-row : (rs : List A) → All (λ r. true ≡ true) rs
    every-row [] = tt
    every-row (r ∷ rs) = (refl, every-row rs)

    query-start :
        (limit : ℕ) → query_rows id before listed rows limit none ≡ take (limit + 1) listing
    unfolding query_rows
    query-start limit =
        ap (λ l. take (limit + 1) (sort_by before l))
          (select-and listed (λ r. true) rows
            ∙ select_every (λ r. true) (select listed rows) (every-row _))

    module _ {B : Type 0} (shown : A → B) (m : ℕ) (fetch : Option String → Page B)
        (fetches : (cursor : Option String)
          → fetch cursor
            ≡ page_of_rows id shown (suc m) (query_rows id before listed rows (suc m) cursor)) where
      -- A client that follows the cursors gets every listed row exactly once, in the order of the listing,
      -- after at most one request more than there are such rows.
      pub follow-listing_of :
          (requests : ℕ)
          → length listing < requests
          → follow fetch requests none ≡ map shown listing
      follow-listing_of requests enough =
          follow-every id shown m fetch listing
            (fetches none ∙ ap (page_of_rows id shown (suc m)) (query-start (suc m)))
            (λ xs c ys e.
              fetches (some (id c))
              ∙ ap (page_of_rows id shown (suc m)) (query-at (suc m) xs c ys e))
            requests enough
