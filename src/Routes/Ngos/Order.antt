-- ===== src/Routes/Ngos/Order.antt =====
-- The order of the listing of src/routes/ngos.ts.
use streamgive_backend.Prelude.{String, Bool, true, false, eq_iff, ◌≡◌, ◌⊎◌, arith}
use streamgive_backend.Routes.Keyset.{IsRowOrder, IsTextOrder, text-split}
use streamgive_backend.Routes.NgoRows.{NgoRow}
use streamgive_backend.Routes.Ngos.{Sort, newest, oldest, by_name, public_name, before}

module _ (text_lt : String → String → Bool) (laws : IsTextOrder text_lt) where
  before-asym :
      (sort : Sort) (a b : NgoRow)
      → before text_lt sort a b ≡ true
      → before text_lt sort b a ≡ false
  unfolding before
  before-asym by_name a b h = ground (
    arith,
    eq_iff (public_name a) (public_name b),
    eq_iff (public_name b) (public_name a),
    laws.asymmetric {s = public_name a} {t = public_name b},
    laws.asymmetric {s = a.id} {t = b.id},
  )
  before-asym oldest a b h = ground (arith, laws.asymmetric {s = a.id} {t = b.id})
  before-asym newest a b h = ground (arith, laws.asymmetric {s = a.id} {t = b.id})

  before-split :
      (sort : Sort) (a b c : NgoRow)
      → before text_lt sort a c ≡ true
      → (before text_lt sort a b ≡ true) ⊎ (before text_lt sort b c ≡ true)
  unfolding before
  before-split by_name a b c h = ground (
    arith,
    text-split text_lt laws a.id b.id c.id,
    text-split text_lt laws (public_name a) (public_name b) (public_name c),
    laws.total {s = public_name a} {t = public_name b},
    laws.total {s = public_name b} {t = public_name c},
    laws.asymmetric {s = public_name a} {t = public_name b},
    eq_iff (public_name a) (public_name b),
    eq_iff (public_name b) (public_name c),
    eq_iff (public_name a) (public_name c),
  )
  before-split oldest a b c h = ground (arith, text-split text_lt laws a.id b.id c.id)
  before-split newest a b c h = ground (arith, text-split text_lt laws a.id b.id c.id)

  before-total :
      (sort : Sort) (a b : NgoRow)
      → before text_lt sort a b ≡ false
      → before text_lt sort b a ≡ false
      → a.id ≡ b.id
  unfolding before
  before-total by_name a b h k = ground (
    arith,
    laws.total {s = a.id} {t = b.id},
    laws.total {s = public_name a} {t = public_name b},
    eq_iff (public_name a) (public_name b),
    eq_iff (public_name b) (public_name a),
  )
  before-total oldest a b h k = ground (arith, laws.total {s = a.id} {t = b.id})
  before-total newest a b h k = ground (arith, laws.total {s = a.id} {t = b.id})

  -- The order of the listing.
  pub IsRowOrder-before :
      (sort : Sort) → IsRowOrder (before text_lt sort) (λ (ngo : NgoRow). ngo.id)
  IsRowOrder-before sort = record {
    asymmetric = before-asym sort;
    split = before-split sort;
    total = before-total sort;
  }
