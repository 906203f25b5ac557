-- ===== src/Routes/Keyset.antt =====
-- Listings that are read page by page, each from the key of the last row of the one before: the order of
-- the rows, the query behind a cursor, the page and the client that follows the cursors. The routes of
-- src/routes/ngos.ts and src/routes/deadLetters.ts read theirs so.
pub mod Listing
mod Cut
pub mod Follow
pub mod Pages
use streamgive_backend.Prelude.{
  ℕ, zero, suc, ◌+◌, String, Bool, true, false, ◌&&◌, Option, none, some, List, [], ◌∷◌, ◌++◌, map,
  ◌==◌, find_first, select, length, take, get_last?, ltb, if◌then◌else◌, ◌≡◌, ◌⊎◌, inl, inr, sym,
  Bool-cases,
}

module _ {A : Type 0} (before : A → A → Bool) where
  unfoldable pub insert_by : A → List A → List A
  insert_by row [] = row ∷ []
  insert_by row (first ∷ rest) =
      let inserted = insert_by row rest in
      if before row first then row ∷ first ∷ rest else first ∷ inserted

  -- `ORDER BY`
  unfoldable pub sort_by : List A → List A
  unfolding insert_by
  sort_by [] = []
  sort_by (row ∷ rows) = insert_by row (sort_by rows)

-- The database compares texts by a strict total order.
pub record IsTextOrder (text_lt : String → String → Bool) : Type 0 where
  pub asymmetric : {s t : String} → text_lt s t ≡ true → text_lt t s ≡ false
  pub transitive : {s t u : String} → text_lt s t ≡ true → text_lt t u ≡ true → text_lt s u ≡ true
  pub total : {s t : String} → text_lt s t ≡ false → text_lt t s ≡ false → s ≡ t

pub text-split :
    (text_lt : String → String → Bool) (laws : IsTextOrder text_lt) (s t u : String)
    → text_lt s u ≡ true
    → (text_lt s t ≡ true) ⊎ (text_lt t u ≡ true)
text-split text_lt laws s t u h = elim (Bool-cases (text_lt s t)) [
  | inl below ↦ inl below
  | inr not_below ↦ elim (Bool-cases (text_lt t s)) [
    | inl above ↦ inr (laws.transitive above h)
    | inr not_above ↦ inr (rw (sym (laws.total not_below not_above)) h)
  ]
]

-- A strict order that tells rows of different ids apart.
pub record IsRowOrder {A : Type 0} (before : A → A → Bool) (id : A → String) : Type 0 where
  pub asymmetric : (a b : A) → before a b ≡ true → before b a ≡ false
  pub split : (a b c : A) → before a c ≡ true → (before a b ≡ true) ⊎ (before b c ≡ true)
  pub total : (a b : A) → before a b ≡ false → before b a ≡ false → id a ≡ id b

-- What a page shows, and the cursor of the next one.
abbrev pub Page : Type 0 → Type 0
Page B = List B × Option String

abbrev pub continue : {B : Type 0} → (String → List B) → Page B → List B
continue rest (items, none) = items
continue rest (items, some next) = items ++ rest next

-- What a client gets that follows the cursors until there is none, within a number of requests.
unfoldable pub follow :
    {B : Type 0} → (fetch : Option String → Page B) → (requests : ℕ) → Option String → List B
follow fetch zero cursor = []
follow fetch (suc n) cursor = continue (λ next. follow fetch n (some next)) (fetch cursor)

module _ {A : Type 0} (id : A → String) where
  abbrev pub has_row_key : String → A → Bool
  has_row_key key row = id row == key

  abbrev last_key : List A → Option String
  last_key rows = elim (get_last? rows) [ none ↦ none | some row ↦ some (id row) ]

  -- The page of rows of which the query returned one more than the limit, if there are more.
  unfoldable pub page_of_rows : {B : Type 0} → (shown : A → B) → ℕ → List A → Page B
  page_of_rows shown limit rows =
      if ltb limit (length rows)
      then (map shown (take limit rows), last_key (take limit rows))
      else (map shown rows, none)

  module _ (before : A → A → Bool) (listed : A → Bool) (rows : List A) where
    abbrev pub is_after_found : Option A → A → Bool
    is_after_found none row = false
    is_after_found (some cursor) row = before cursor row

    abbrev pub is_after_key : Option String → A → Bool
    is_after_key none row = true
    is_after_key (some key) row = is_after_found (find_first (has_row_key key) rows) row

    -- The query, with its `LIMIT`.
    unfoldable pub query_rows : ℕ → Option String → List A
    query_rows limit cursor =
        take (limit + 1) (sort_by before (select (λ r. listed r && is_after_key cursor r) rows))

    -- All the rows that are listed, in their order.
    abbrev pub listing_of : List A
    listing_of = sort_by before (select listed rows)
