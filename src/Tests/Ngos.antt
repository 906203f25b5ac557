-- ===== src/Tests/Ngos.antt =====
-- The pages of GET /ngos of src/routes/ngos.ts over three NGOs; texts are compared by their characters' codes.
use streamgive_backend.Prelude.{
  ℕ, ◌≤◌, ◌<◌, length, String, Bool, true, false, none, List, [], ◌∷◌, map, ◌≡◌, refl, arith,
  count_where,
}
use streamgive_backend.Tests.TextOrder.{text_lt, text_lt-IsTextOrder, distinct}
use streamgive_backend.Routes.NgoRows.{NgoRow, has_id}
use streamgive_backend.Routes.Ngos.{newest, summary, order_by, before}
use streamgive_backend.Routes.Keyset.{insert_by, sort_by, follow}
use streamgive_backend.Routes.Ngos.Pages.{listing, fetch_page, follow-listing}

abbrev named : String → ℕ → Bool → NgoRow
named id at verified = record {
  id = id;
  owner_address = "GNGO";
  name = "Name";
  display_name = none;
  verified = verified;
  created_at = at;
  updated_at = at;
}

-- Two NGOs of the same time, and one that is not listed.
abbrev ngos : List NgoRow
ngos = named "a" 5 true ∷ named "b" 7 false ∷ named "c" 5 true ∷ named "d" 9 true ∷ []

ngos_unique : (id : String) → count_where (has_id id) ngos ≤ 1
ngos_unique id = ground (
  arith,
  distinct "a" "b" id refl,
  distinct "a" "c" id refl,
  distinct "a" "d" id refl,
  distinct "b" "c" id refl,
  distinct "b" "d" id refl,
  distinct "c" "d" id refl,
)

in_order :
    listing text_lt (λ q name. true) newest none ngos
    ≡ named "d" 9 true ∷ named "a" 5 true ∷ named "c" 5 true ∷ []
unfolding order_by sort_by insert_by before
in_order = refl

short : length (listing text_lt (λ q name. true) newest none ngos) < 4
short = rw in_order (omega arith)

-- The newest one first, the others by id, on pages of two.
follow-listing_example :
    follow (fetch_page text_lt (λ q name. true) newest none ngos 2) 4 none
    ≡ map summary (listing text_lt (λ q name. true) newest none ngos)
follow-listing_example =
    follow-listing text_lt (λ q name. true) newest none ngos text_lt-IsTextOrder ngos_unique 2 4
      (omega arith) short
