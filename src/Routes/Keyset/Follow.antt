-- ===== src/Routes/Keyset/Follow.antt =====
-- A client that follows cursors, whatever answers its requests.
use streamgive_backend.Prelude.{
  ℕ, zero, suc, ◌+◌, ◌<◌, String, Option, none, some, List, [], ◌∷◌, ◌++◌, map, ◌≡◌, inl, inr, refl,
  sym, ap, ◌∙◌, arith, Bool-cases, length, length-append, take, ltb, append_assoc,
}
use streamgive_backend.Routes.Keyset.{Page, continue, follow, page_of_rows}
use streamgive_backend.Routes.Keyset.Cut.{cut, map-append, page_of_rows-last, page_of_rows-more}

-- The first page starts with the listing, and the page behind a row's cursor behind that row.
module _ {A B : Type 0} (id : A → String) (shown : A → B) (m : ℕ) (fetch : Option String → Page B)
    (listing : List A)
    (first : fetch none ≡ page_of_rows id shown (suc m) (take (suc m + 1) listing))
    (behind : (xs : List A) (c : A) (ys : List A)
      → listing ≡ xs ++ c ∷ ys
      → fetch (some (id c)) ≡ page_of_rows id shown (suc m) (take (suc m + 1) ys)) where
  -- Where the rows that a page shows start in the listing.
  follow-from :
      (n : ℕ) (cursor : Option String) (xs zs : List A)
      → listing ≡ xs ++ zs
      → fetch cursor ≡ page_of_rows id shown (suc m) (take (suc m + 1) zs)
      → length zs < n
      → follow fetch n cursor ≡ map shown zs
  unfolding follow
  follow-from zero cursor xs zs whole fetched lt = absurd (omega (arith, lt))
  follow-from (suc n) cursor xs zs whole fetched lt =
      let go = continue (λ next. follow fetch n (some next)) in
      elim (Bool-cases (ltb (suc m) (length zs))) [
        | inr last_page ↦
            ap go (fetched ∙ page_of_rows-last id shown (suc m) zs (ground (arith, last_page)))
        | inl more ↦
            let c = cut m zs (ground (arith, more)) in
            let split : listing ≡ (xs ++ c.front) ++ c.last ∷ c.back =
              whole ∙ ap (λ l. xs ++ l) c.whole ∙ sym (append_assoc xs c.front (c.last ∷ c.back)) in
            let rows : listing ≡ ((xs ++ c.front) ++ c.last ∷ []) ++ c.back =
              split ∙ sym (append_assoc (xs ++ c.front) (c.last ∷ []) c.back) in
            let fewer : length c.back < n =
              omega (arith, lt, ap length c.whole, length-append c.front (c.last ∷ c.back)) in
            let rest : follow fetch n (some (id c.last)) ≡ map shown c.back =
              follow-from n (some (id c.last)) _ c.back rows
                (behind (xs ++ c.front) c.last c.back split) fewer in
            ap go (fetched ∙ page_of_rows-more id shown m zs (ground (arith, more)) c)
            ∙ ap (λ l. map shown (c.front ++ c.last ∷ []) ++ l) rest
            ∙ sym (map-append shown (c.front ++ c.last ∷ []) c.back)
            ∙ ap (map shown) (append_assoc c.front (c.last ∷ []) c.back ∙ sym c.whole)
      ]

  -- Every row exactly once, in order, after at most one request more than there are rows.
  pub follow-every :
      (requests : ℕ) → length listing < requests → follow fetch requests none ≡ map shown listing
  follow-every requests enough = follow-from requests none [] listing refl first enough
