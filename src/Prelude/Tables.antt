-- ===== src/Prelude/Tables.antt =====
-- A database table as a list of rows in insertion order: find, update, upsert, delete, and how
-- they act on each other, for any key test.
use Prim.Native.Nat.{ℕ, ◌+◌, ◌≤◌}
use mathlib.Core.Path.{◌≡◌, refl}
use mathlib.Core.Bool.{Bool, true, false}
use mathlib.Core.List.{List, [], ◌∷◌, ◌++◌}
use mathlib.Core.Option
use mathlib.Core.Option.{Option, none, some}
use native.Mathlib.Omega.{arith}
use streamgive_backend.Prelude.Tests.{if◌then◌else◌}
use streamgive_backend.Prelude.Lists.{any, All, All-append}

module _ {ℓ} {A : Type ℓ} where
  -- `findUnique`, `findFirst`
  abbrev pub find_first : (A → Bool) → List A → Option A
  find_first p [] = none
  find_first p (x ∷ xs) = if p x then some x else find_first p xs

  -- `upsert` with an empty update: the row that is there, or a new one
  abbrev pub find_or_create : (A → Bool) → A → List A → A × List A
  find_or_create p new xs = elim (find_first p xs) [
    | some x ↦ (x, xs)
    | none ↦ (new, xs ++ new ∷ [])
  ]

  -- `findMany`
  abbrev pub select : (A → Bool) → List A → List A
  select p [] = []
  select p (x ∷ xs) = let rest = select p xs in if p x then x ∷ rest else rest

  -- `updateMany`: every row that matches
  abbrev pub update_where : (A → Bool) → (A → A) → List A → List A
  update_where p f [] = []
  update_where p f (x ∷ xs) = (if p x then f x else x) ∷ update_where p f xs

  -- `deleteMany`
  abbrev pub delete_where : (A → Bool) → List A → List A
  delete_where p [] = []
  delete_where p (x ∷ xs) = let rest = delete_where p xs in if p x then rest else x ∷ rest

  -- `upsert`: update the row that is there, or append the new one
  abbrev pub upsert : (A → Bool) → A → (A → A) → List A → List A
  upsert p new f xs = if any p xs then update_where p f xs else xs ++ new ∷ []

  -- The number of rows that match.
  abbrev pub count_where : (A → Bool) → List A → ℕ
  count_where p [] = 0
  count_where p (x ∷ xs) = (if p x then 1 else 0) + count_where p xs

  pub any-eq-false-find : (p : A → Bool) (xs : List A) → find_first p xs ≡ none → any p xs ≡ false
  any-eq-false-find p [] h = refl
  any-eq-false-find p (x ∷ xs) h = ground (arith, any-eq-false-find p xs)

  pub find_first-true : (p : A → Bool) (xs : List A) {a : A} → find_first p xs ≡ some a → p a ≡ true
  find_first-true p [] h = ground arith
  find_first-true p (x ∷ xs) {a} h = ground (arith, find_first-true p xs {a = a})

  pub any_of_find_first :
      (p : A → Bool) (xs : List A) {a : A} → find_first p xs ≡ some a → any p xs ≡ true
  any_of_find_first p [] h = ground arith
  any_of_find_first p (x ∷ xs) {a} h = ground (arith, any_of_find_first p xs {a = a})

  pub find_first-append_some :
      (p : A → Bool) (xs ys : List A) {a : A}
      → find_first p xs ≡ some a
      → find_first p (xs ++ ys) ≡ some a
  find_first-append_some p [] ys h = ground arith
  find_first-append_some p (x ∷ xs) ys {a} h =
      ground (arith, find_first-append_some p xs ys {a = a})

  pub find_first-append :
      (p : A → Bool) (xs ys : List A)
      → find_first p (xs ++ ys) ≡ (if any p xs then find_first p xs else find_first p ys)
  find_first-append p [] ys = refl
  find_first-append p (x ∷ xs) ys = ground (arith, find_first-append p xs ys)

  -- What was there before a `find_or_create` is there after it.
  pub find_first-find_or_create :
      (q p : A → Bool) (new : A) (xs : List A) {a : A}
      → find_first q xs ≡ some a
      → find_first q (find_or_create p new xs).1 ≡ some a
  find_first-find_or_create q p new xs {a} h = go (find_first p xs)
    where
      go :
          (o : Option A)
          → find_first q
              (elim o as (λ _. A × List A) [ some x ↦ (x, xs) | none ↦ (new, xs ++ new ∷ []) ]).1
            ≡ some a
      go (some x) = h
      go none = find_first-append_some q xs (new ∷ []) h

  -- An update that leaves the key alone, seen by the same key.
  pub find_first-update_where :
      (p : A → Bool) (f : A → A) (xs : List A)
      → ((x : A) → p x ≡ true → p (f x) ≡ true)
      → find_first p (update_where p f xs) ≡ Option.map f (find_first p xs)
  find_first-update_where p f [] h = refl
  find_first-update_where p f (x ∷ xs) h = ground (arith, find_first-update_where p f xs h, h x)

  -- An update of other rows.
  pub find_first-update_where_ne :
      (q p : A → Bool) (f : A → A) (xs : List A)
      → ((x : A) → p x ≡ true → (q x ≡ false) × (q (f x) ≡ false))
      → find_first q (update_where p f xs) ≡ find_first q xs
  find_first-update_where_ne q p f [] h = refl
  find_first-update_where_ne q p f (x ∷ xs) h =
      ground (arith, find_first-update_where_ne q p f xs h, h x)

  -- The row that an upsert leaves under its key.
  pub find_first-upsert :
      (p : A → Bool) (new : A) (f : A → A) (xs : List A)
      → p new ≡ true
      → ((x : A) → p x ≡ true → p (f x) ≡ true)
      → find_first p (upsert p new f xs)
        ≡ some (elim (find_first p xs) [ some x ↦ f x | none ↦ new ])
  find_first-upsert p new f xs n h = go (find_first p xs) refl
    where
      go :
          (o : Option A)
          → find_first p xs ≡ o
          → find_first p (upsert p new f xs) ≡ some (elim o [ some x ↦ f x | none ↦ new ])
      go (some x) e =
          ground (arith, any_of_find_first p xs {a = x} e, find_first-update_where p f xs h)
      go none e = ground (arith, any-eq-false-find p xs e, find_first-append p xs (new ∷ []))

  -- A predicate that an update and a new row keep.
  pub All-update_where {κ} :
      (P : A → Type κ) (p : A → Bool) (f : A → A) (xs : List A)
      → ((x : A) → p x ≡ true → P x → P (f x))
      → All P xs
      → All P (update_where p f xs)
  All-update_where P p f [] h a = a
  All-update_where P p f (x ∷ xs) h (px, a) =
      (keep (p x) (λ e. h x e px), All-update_where P p f xs h a)
    where
      keep : (b : Bool) → (b ≡ true → P (f x)) → P (if b then f x else x)
      keep true k = k refl
      keep false k = px

  pub All-upsert {κ} :
      (P : A → Type κ) (p : A → Bool) (new : A) (f : A → A) (xs : List A)
      → P new
      → ((x : A) → p x ≡ true → P x → P (f x))
      → All P xs
      → All P (upsert p new f xs)
  All-upsert P p new f xs n h a = choose (any p xs)
    where
      choose : (b : Bool) → All P (if b then update_where p f xs else xs ++ new ∷ [])
      choose true = All-update_where P p f xs h a
      choose false = All-append P xs (new ∷ []) a (n, tt)

  -- An update of some rows that keeps the key, seen by a key.
  pub find_first-update_key :
      (q p : A → Bool) (f : A → A) (xs : List A)
      → ((x : A) → p x ≡ true → q (f x) ≡ q x)
      → find_first q (update_where p f xs)
        ≡ Option.map (λ x. if p x then f x else x) (find_first q xs)
  find_first-update_key q p f [] h = refl
  find_first-update_key q p f (x ∷ xs) h = ground (arith, find_first-update_key q p f xs h, h x)

  pub count_where-append :
      (q : A → Bool) (xs ys : List A)
      → count_where q (xs ++ ys) ≡ count_where q xs + count_where q ys
  count_where-append q [] ys = omega arith
  count_where-append q (x ∷ xs) ys = omega (arith, count_where-append q xs ys)

  pub count_where-none :
      (q : A → Bool) (xs : List A) → find_first q xs ≡ none → count_where q xs ≡ 0
  count_where-none q [] h = refl
  count_where-none q (x ∷ xs) h = ground (arith, count_where-none q xs)

  -- An update makes no more rows match.
  pub count_where-update_where :
      (q p : A → Bool) (f : A → A) (xs : List A)
      → ((x : A) → p x ≡ true → q (f x) ≡ true → q x ≡ true)
      → count_where q (update_where p f xs) ≤ count_where q xs
  count_where-update_where q p f [] h = omega arith
  count_where-update_where q p f (x ∷ xs) h =
      ground (arith, count_where-update_where q p f xs h, h x)

  -- No row matches after the matching rows are deleted.
  pub find_first-delete_where :
      (q : A → Bool) (xs : List A) → find_first q (delete_where q xs) ≡ none
  find_first-delete_where q [] = refl
  find_first-delete_where q (x ∷ xs) = ground (arith, find_first-delete_where q xs)

  -- No row matches after any rows are deleted, or after rows that do not match are written.
  pub find_first-delete_where_other :
      (q p : A → Bool) (xs : List A)
      → find_first q xs ≡ none
      → find_first q (delete_where p xs) ≡ none
  find_first-delete_where_other q p [] h = refl
  find_first-delete_where_other q p (x ∷ xs) h =
      ground (arith, h, find_first-delete_where_other q p xs)

  find_first-update_where_other :
      (q p : A → Bool) (f : A → A) (xs : List A)
      → ((x : A) → q (f x) ≡ false)
      → find_first q xs ≡ none
      → find_first q (update_where p f xs) ≡ none
  find_first-update_where_other q p f [] k h = refl
  find_first-update_where_other q p f (x ∷ xs) k h =
      ground (arith, h, k x, find_first-update_where_other q p f xs k)

  pub find_first-upsert_other :
      (q p : A → Bool) (new : A) (f : A → A) (xs : List A)
      → q new ≡ false
      → ((x : A) → q (f x) ≡ false)
      → find_first q xs ≡ none
      → find_first q (upsert p new f xs) ≡ none
  find_first-upsert_other q p new f xs n k h =
      ground
        (arith, h, n, find_first-append q xs (new ∷ []), find_first-update_where_other q p f xs k h)

  -- At most one row matches, so each row that does is the one that is found.
  pub All-found :
      (q : A → Bool) (xs : List A) (r : A)
      → count_where q xs ≤ 1
      → find_first q xs ≡ some r
      → All (λ x. q x ≡ true → x ≡ r) xs
  All-found q [] r c h = tt
  All-found q (x ∷ xs) r c h = head (q x) refl (All-found q xs r)
    where
      vacuous : (ys : List A) → count_where q ys ≡ 0 → All (λ y. q y ≡ true → y ≡ r) ys
      vacuous [] z = tt
      vacuous (y ∷ ys) z = (λ e. ground (arith, e, z), vacuous ys (ground (arith, z)))

      head :
          (b : Bool)
          → q x ≡ b
          → (count_where q xs ≤ 1 → find_first q xs ≡ some r → All (λ y. q y ≡ true → y ≡ r) xs)
          → All (λ y. q y ≡ true → y ≡ r) (x ∷ xs)
      head true e rest = (λ _. ground (arith, e, h), vacuous xs (ground (arith, e, c)))
      head false e rest =
          (λ e'. ground (arith, e, e'), rest (ground (arith, e, c)) (ground (arith, e, h)))

  -- An update of rows that a second predicate describes.
  pub All-update_with {κ μ} :
      (P : A → Type κ) (Q : A → Type μ) (p : A → Bool) (f : A → A) (xs : List A)
      → ((x : A) → p x ≡ true → P x → Q x → P (f x))
      → All P xs
      → All Q xs
      → All P (update_where p f xs)
  All-update_with P Q p f [] h a b = tt
  All-update_with P Q p f (x ∷ xs) h (px, a) (qx, b) =
      (keep (p x) (λ e. h x e px qx), All-update_with P Q p f xs h a b)
    where
      keep : (b : Bool) → (b ≡ true → P (f x)) → P (if b then f x else x)
      keep true k = k refl
      keep false k = px
