-- ===== src/Routes/Keyset/Cut.antt =====
-- A page of the rows that are left of a listing.
use streamgive_backend.Prelude.{
  ℕ, zero, suc, ◌+◌, ◌≤◌, ◌<◌, String, none, some, List, [], ◌∷◌, ◌++◌, map, ◌≡◌, refl, ap, arith,
  length, length-take, take, get_last?,
}
use streamgive_backend.Routes.Keyset.{page_of_rows}

-- A list cut behind its n-th element.
pub record Cut {A : Type 0} (n : ℕ) (zs : List A) : Type 0 where
  pub front : List A
  pub last : A
  pub back : List A
  pub whole : zs ≡ front ++ last ∷ back
  pub taken : take (suc n) zs ≡ front ++ last ∷ []
  pub end : get_last? (take (suc n) zs) ≡ some last

pub cut : {A : Type 0} (n : ℕ) (zs : List A) → n < length zs → Cut n zs
cut n [] h = absurd (omega arith)
cut zero (z ∷ zs) h = record {
  front = [];
  last = z;
  back = zs;
  whole = refl;
  taken = refl;
  end = refl;
}
cut (suc n) (z ∷ []) h = absurd (omega arith)
cut (suc n) (z ∷ y ∷ zs) h =
    let c = cut n (y ∷ zs) (omega (arith, h)) in
    record {
      front = z ∷ c.front;
      last = c.last;
      back = c.back;
      whole = ap (λ l. z ∷ l) c.whole;
      taken = ap (λ l. z ∷ l) c.taken;
      end = c.end;
    }

pub map-append :
    {A B : Type 0} (shown : A → B) (xs ys : List A)
    → map shown (xs ++ ys) ≡ map shown xs ++ map shown ys
map-append shown [] ys = refl
map-append shown (x ∷ xs) ys = ap (λ l. shown x ∷ l) (map-append shown xs ys)

take-take : {A : Type 0} (n m : ℕ) (zs : List A) → n ≤ m → take n (take m zs) ≡ take n zs
take-take zero m zs h = refl
take-take (suc n) zero zs h = absurd (omega arith)
take-take (suc n) (suc m) [] h = refl
take-take (suc n) (suc m) (z ∷ zs) h = ap (λ l. z ∷ l) (take-take n m zs (omega (arith, h)))

take-all : {A : Type 0} (n : ℕ) (zs : List A) → length zs ≤ n → take n zs ≡ zs
take-all zero [] h = refl
take-all zero (z ∷ zs) h = absurd (omega (arith, h))
take-all (suc n) [] h = refl
take-all (suc n) (z ∷ zs) h = ap (λ l. z ∷ l) (take-all n zs (omega (arith, h)))

module _ {A B : Type 0} (id : A → String) (shown : A → B) where
  pub page_of_rows-last :
      (limit : ℕ) (zs : List A)
      → length zs ≤ limit
      → page_of_rows id shown limit (take (limit + 1) zs) ≡ (map shown zs, none)
  unfolding page_of_rows
  page_of_rows-last limit zs h = ground (arith, take-all (limit + 1) zs)

  pub page_of_rows-more :
      (m : ℕ) (zs : List A) (more : suc m < length zs) (c : Cut m zs)
      → page_of_rows id shown (suc m) (take (suc m + 1) zs)
        ≡ (map shown (c.front ++ c.last ∷ []), some (id c.last))
  unfolding page_of_rows
  page_of_rows-more m zs more c =
      ground (arith, length-take (suc m + 1) zs, take-take (suc m) (suc m + 1) zs, c.taken, c.end)
