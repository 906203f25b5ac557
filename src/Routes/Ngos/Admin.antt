-- ===== src/Routes/Ngos/Admin.antt =====
-- The routes of src/routes/ngos.ts for the admins: the list of all NGOs and the update of a display name.
-- Prisma's `cursor` with `skip: 1`, on the rows in their order, is the parameter `behind`.
use streamgive_backend.Prelude.{
  ℕ, ◌+◌, String, Bool, true, false, not, Option, none, some, List, ◌==◌, find_first, select,
  update_where, length, take, ltb, if◌then◌else◌, ℤ,
}
use streamgive_backend.Routes.Reply.{Reply, refused, replied}
use streamgive_backend.Routes.NgoRows.{NgoRow, has_id}
use streamgive_backend.Routes.Ngos.{last_id}
use streamgive_backend.Routes.Applications.Schema.{
  Field, absent, other, text, Zod, parse_uuid, parse_optional, when,
}
use streamgive_backend.Routes.Applications.Read.{parse_number}

pub record NgoRowPage : Type 0 where
  pub ngos : List NgoRow
  pub next_cursor : Option String

module _ (zod : Zod) (number : String → Option ℤ) where
  -- `z.enum(['true', 'false']).optional()`: `some none` is a filter that is left out.
  pub parse_verified : Field → Option (Option Bool)
  parse_verified absent = some none
  parse_verified other = none
  parse_verified (text s) =
      if s == "true" then some (some true) else if s == "false" then some (some false) else none

  abbrev is_wanted : Option Bool → NgoRow → Bool
  is_wanted none ngo = true
  is_wanted (some true) ngo = ngo.verified
  is_wanted (some false) ngo = not ngo.verified

  pub row_page : ℕ → List NgoRow → NgoRowPage
  row_page limit rows =
      if ltb limit (length rows)
      then record { ngos = take limit rows; next_cursor = last_id (take limit rows) }
      else record { ngos = rows; next_cursor = none }

  -- GET /ngos/all; `behind` sorts by the time of creation and goes to the row behind the cursor.
  pub list_all_ngos :
      (behind : Option String → List NgoRow → List NgoRow)
      → (limit cursor verified : Field) → List NgoRow
      → Reply NgoRowPage
  unfolding parse_verified row_page
  list_all_ngos behind limit cursor verified ngos = elim (parse_number number 1 100 100 limit) [
    | none ↦ refused 400 "invalid_request"
    | some limit ↦ elim (parse_optional (λ s. when (zod.is_uuid s) s) cursor) [
      | none ↦ refused 400 "invalid_request"
      | some cursor ↦ elim (parse_verified verified) [
        | none ↦ refused 400 "invalid_request"
        | some wanted ↦
            replied 200
              (row_page limit (take (limit + 1) (behind cursor (select (is_wanted wanted) ngos))))
      ]
    ]
  ]

-- What a body gives for `displayName`: nothing, null, or a text; another value is invalid.
pub data DisplayName : Type 0 where
  left_out null invalid : DisplayName
  shown : String → DisplayName

-- `@updatedAt` is set by an update; `untouched` is what Prisma does without any data.
abbrev set_display_name : (NgoRow → NgoRow) → DisplayName → ℕ → NgoRow → NgoRow
set_display_name untouched left_out now ngo = untouched ngo
set_display_name untouched invalid now ngo = ngo
set_display_name untouched null now ngo = record ngo { display_name = none; updated_at = now }
set_display_name untouched (shown name) now ngo = record ngo {
  display_name = some name;
  updated_at = now;
}

abbrev is_invalid : DisplayName → Bool
is_invalid left_out = false
is_invalid null = false
is_invalid invalid = true
is_invalid (shown name) = false

-- `updated.displayName || updated.name`
abbrev effective_name : NgoRow → String
effective_name ngo = elim ngo.display_name [
  | none ↦ ngo.name
  | some name ↦ if name == "" then ngo.name else name
]

-- PATCH /admin/ngos/:id, with the table that it leaves.
pub update_ngo :
    (NgoRow → NgoRow)
    → Zod
    → Field
    → DisplayName
    → ℕ
    → List NgoRow
    → Reply (NgoRow × String) × List NgoRow
update_ngo untouched zod id display_name now ngos = elim (parse_uuid zod id) [
  | none ↦ (refused 400 "invalid_request", ngos)
  | some id ↦
      if is_invalid display_name
      then (refused 400 "invalid_request", ngos)
      else elim (find_first (has_id id) ngos) [
        | none ↦ (refused 404 "not_found", ngos)
        | some ngo ↦
            let updated = set_display_name untouched display_name now ngo in
            (
              replied 200 (updated, effective_name updated),
              update_where (has_id id) (set_display_name untouched display_name now) ngos,
            )
      ]
]
