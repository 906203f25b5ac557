-- ===== src/Routes/Keyset/Listing.antt =====
-- The sorted listing, and what a condition leaves of it.
use streamgive_backend.Prelude.{
  String, Bool, true, false, ◌&&◌, List, [], ◌∷◌, ◌++◌, select, count_where, if◌then◌else◌, ◌≡◌,
  inl, inr, refl, ap, ◌∙◌, arith, Bool-cases, All, length, suc,
}
use streamgive_backend.Routes.Keyset.{insert_by, sort_by, IsRowOrder}

module _ {A : Type 0} where
  pub All-select :
      (P : A → Type 0) (f : A → Bool) (rows : List A) → All P rows → All P (select f rows)
  All-select P f [] h = tt
  All-select P f (x ∷ xs) (px, h) = elim (Bool-cases (f x)) [
    | inl e ↦ rw e (px, All-select P f xs h)
    | inr e ↦ rw e (All-select P f xs h)
  ]

  All-map : (P Q : A → Type 0) (rows : List A) → ((r : A) → P r → Q r) → All P rows → All Q rows
  All-map P Q [] f h = tt
  All-map P Q (x ∷ xs) f (px, h) = (f x px, All-map P Q xs f h)

  pub All-at :
      (P : A → Type 0) (xs : List A) (c : A) (ys : List A)
      → All P (xs ++ c ∷ ys)
      → All P xs × P c × All P ys
  All-at P [] c ys (h, hs) = (tt, h, hs)
  All-at P (x ∷ xs) c ys (h, hs) = let (a, b, d) = All-at P xs c ys hs in ((h, a), b, d)

  pub select-and :
      (f g : A → Bool) (rows : List A) → select (λ r. f r && g r) rows ≡ select g (select f rows)
  select-and f g [] = refl
  select-and f g (x ∷ xs) = ground (arith, select-and f g xs)

  pub select_every :
      (f : A → Bool) (rows : List A) → All (λ r. f r ≡ true) rows → select f rows ≡ rows
  select_every f [] h = refl
  select_every f (x ∷ xs) (h, hs) = ground (arith, h, select_every f xs hs)

  pub select-none :
      (f : A → Bool) (xs ys : List A)
      → All (λ r. f r ≡ false) xs
      → select f (xs ++ ys) ≡ select f ys
  select-none f [] ys h = refl
  select-none f (x ∷ xs) ys (h, hs) = ground (arith, h, select-none f xs ys hs)

module _ {A : Type 0} (before : A → A → Bool) where
  All-insert_by :
      (P : A → Type 0) (x : A) (rows : List A) → P x → All P rows → All P (insert_by before x rows)
  unfolding insert_by
  All-insert_by P x [] px h = (px, tt)
  All-insert_by P x (y ∷ ys) px (py, h) = elim (Bool-cases (before x y)) [
    | inl e ↦ rw e (px, (py, h))
    | inr e ↦ rw e (py, All-insert_by P x ys px h)
  ]

  pub All-sort_by : (P : A → Type 0) (rows : List A) → All P rows → All P (sort_by before rows)
  unfolding sort_by
  All-sort_by P [] h = tt
  All-sort_by P (x ∷ xs) (px, h) = All-insert_by P x _ px (All-sort_by P xs h)

  count-insert_by :
      (q : A → Bool) (x : A) (rows : List A)
      → count_where q (insert_by before x rows) ≡ count_where q (x ∷ rows)
  unfolding insert_by
  count-insert_by q x [] = refl
  count-insert_by q x (y ∷ ys) = ground (arith, count-insert_by q x ys)

  pub count-sort_by :
      (q : A → Bool) (rows : List A) → count_where q (sort_by before rows) ≡ count_where q rows
  unfolding sort_by
  count-sort_by q [] = refl
  count-sort_by q (x ∷ xs) =
      ground (arith, count-insert_by q x (sort_by before xs), count-sort_by q xs)

  length-insert_by : (x : A) (rows : List A) → length (insert_by before x rows) ≡ suc (length rows)
  unfolding insert_by
  length-insert_by x [] = refl
  length-insert_by x (y ∷ ys) = ground (arith, length-insert_by x ys)

  pub length-sort_by : (rows : List A) → length (sort_by before rows) ≡ length rows
  unfolding sort_by
  length-sort_by [] = refl
  length-sort_by (x ∷ xs) = length-insert_by x (sort_by before xs) ∙ ap suc (length-sort_by xs)

  -- No row stands behind one that it comes before.
  abbrev pub Sorted : List A → Type 0
  Sorted [] = Unit
  Sorted (x ∷ xs) = All (λ y. before y x ≡ false) xs × Sorted xs

  module _ (id : A → String) (laws : IsRowOrder before id) where
    -- Behind a row that the new one comes before, the new one comes before every row.
    precedes :
        (x y : A) (ys : List A)
        → before x y ≡ true
        → All (λ z. before z y ≡ false) ys
        → All (λ z. before x z ≡ true) ys
    precedes x y ys e = All-map _ _ ys (λ z n. elim (laws.split x z y e) [
      | inl first ↦ first
      | inr second ↦ absurd (ground (arith, second, n))
    ])

    Sorted-insert_by : (x : A) (rows : List A) → Sorted rows → Sorted (insert_by before x rows)
    unfolding insert_by
    Sorted-insert_by x [] h = (tt, tt)
    Sorted-insert_by x (y ∷ ys) (h, hs) = elim (Bool-cases (before x y)) [
      | inl e ↦ rw e (
        (laws.asymmetric x y e, All-map _ _ ys (λ z. laws.asymmetric x z) (precedes x y ys e h)),
        (h, hs),
      )
      | inr e ↦ rw e (All-insert_by _ x ys e h, Sorted-insert_by x ys hs)
    ]

    pub Sorted-sort_by : (rows : List A) → Sorted (sort_by before rows)
    unfolding sort_by
    Sorted-sort_by [] = tt
    Sorted-sort_by (x ∷ xs) = Sorted-insert_by x _ (Sorted-sort_by xs)

    insert_by-first :
        (x : A) (rows : List A)
        → All (λ z. before x z ≡ true) rows
        → insert_by before x rows ≡ x ∷ rows
    unfolding insert_by
    insert_by-first x [] h = refl
    insert_by-first x (y ∷ ys) (h, hs) = ground (arith, h)

    select-insert_by :
        (f : A → Bool) (x : A) (rows : List A)
        → Sorted rows
        → select f (insert_by before x rows)
          ≡ (if f x then insert_by before x (select f rows) else select f rows)
    unfolding insert_by
    select-insert_by f x [] h = ground arith
    select-insert_by f x (y ∷ ys) (h, hs) = elim (Bool-cases (before x y)) [
      | inl e ↦ ground (
        arith,
        e,
        insert_by-first x (select f (y ∷ ys)) (All-select _ f (y ∷ ys) (e, precedes x y ys e h)),
      )
      | inr e ↦ ground (arith, e, select-insert_by f x ys hs)
    ]

    pub select-sort_by :
        (f : A → Bool) (rows : List A)
        → select f (sort_by before rows) ≡ sort_by before (select f rows)
    unfolding sort_by
    select-sort_by f [] = refl
    select-sort_by f (x ∷ xs) =
        ground
          (arith, select-insert_by f x (sort_by before xs) (Sorted-sort_by xs), select-sort_by f xs)
