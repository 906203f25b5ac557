-- ===== src/Prelude/Evolution.antt =====
-- Tables whose rows are found by a text key, and what can become of the row of each key.
use mathlib.Core.Path.{◌≡◌, refl, ◌∙◌, ap}
use mathlib.Core.Bool.{Bool, true, false}
use mathlib.Core.List.{List, ◌++◌}
use mathlib.Core.Option
use mathlib.Core.Option.{Option, none, some}
use Prim.Native.String.{String}
use text.Mathlib.Text.{◌==◌}
use streamgive_backend.Prelude.Tests.{if◌then◌else◌}
use streamgive_backend.Prelude.Tables.{
  find_first, update_where, find_first-append_some, find_first-update_key,
}

module _ {A : Type 0} (key : A → String) where
  abbrev pub keyed : String → A → Bool
  keyed k x = key x == k

  module _ (R : A → A → Type 0) where
    -- The row of each key is still there, and stands in `R` to what it was.
    abbrev pub TableEvolves : List A → List A → Type 0
    TableEvolves xs ys =
        (k : String) (x : A)
        → find_first (keyed k) xs ≡ some x
        → (y : A) × (find_first (keyed k) ys ≡ some y) × R x y

  module _ (R : A → A → Type 0) (same : (x : A) → R x x) where
    pub TableEvolves-refl : (xs : List A) → TableEvolves R xs xs
    TableEvolves-refl xs k x h = (x, h, same x)

    pub TableEvolves-append : (xs ys : List A) → TableEvolves R xs (xs ++ ys)
    TableEvolves-append xs ys k x h = (x, find_first-append_some (keyed k) xs ys h, same x)

    pub TableEvolves-update :
        (p : A → Bool) (f : A → A) (xs : List A)
        → ((x : A) → p x ≡ true → key (f x) ≡ key x)
        → ((x : A) → p x ≡ true → R x (f x))
        → TableEvolves R xs (update_where p f xs)
    TableEvolves-update p f xs kept step k x h = (
      (if p x then f x else x),
      find_first-update_key (keyed k) p f xs (λ y e. ap (λ t. t == k) (kept y e))
          ∙ ap (Option.map (λ y. if p y then f y else y)) h,
      branch (p x) (step x),
    )
      where
        branch : (b : Bool) → (b ≡ true → R x (f x)) → R x (if b then f x else x)
        branch true s = s refl
        branch false s = same x

  pub TableEvolves-trans :
      (R : A → A → Type 0) (xs ys zs : List A)
      → ((x y z : A) → R x y → R y z → R x z)
      → TableEvolves R xs ys
      → TableEvolves R ys zs
      → TableEvolves R xs zs
  TableEvolves-trans R xs ys zs join a b k x h =
      let (y, found, xy) = a k x h in
      let (z, found', yz) = b k y found in (z, found', join x y z xy yz)
