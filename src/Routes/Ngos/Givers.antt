-- ===== src/Routes/Ngos/Givers.antt =====
-- The route GET /ngos/:id/donors of src/routes/ngos.ts. Prisma's `cursor` with `skip: 1`, on the rows in
-- their order, is the parameter `behind`.
use streamgive_backend.Prelude.{
  ℕ, ◌+◌, String, Bool, Option, none, some, List, [], map, ◌==◌, find_first, select, any, length,
  take, get_last?, ltb, if◌then◌else◌, ℤ, pos,
}
use streamgive_backend.Db.{Stream, Donor}
use streamgive_backend.Db.Exec.{Result, ok, err, error, object, thrown_value}
use streamgive_backend.Routes.Reply.{Reply, refused, replied}
use streamgive_backend.Routes.NgoRows.{NgoRow, has_id}
use streamgive_backend.Routes.TokenTotals.{TokenTotal, committed_totals_by_token}
use streamgive_backend.Routes.Donors.{sum_committed, selected, is_of_donor}
use streamgive_backend.Routes.Impact.{is_of_ngo}
use streamgive_backend.Routes.Applications.Schema.{Field, Zod, parse_uuid, parse_optional, when}
use streamgive_backend.Routes.Applications.Read.{parse_number}

pub record NgoDonor : Type 0 where
  pub id : String
  pub address : String
  pub total_committed : ℤ
  pub committed_by_token : List TokenTotal

pub record NgoDonorPage : Type 0 where
  pub donors : List NgoDonor
  pub next_cursor : Option String

abbrev last_donor_id : List NgoDonor → Option String
last_donor_id donors = elim (get_last? donors) [ none ↦ none | some donor ↦ some donor.id ]

-- P2025 for a cursor that is not there counts as an empty page.
pub rows_or_throw : Result (List Donor) → Result (List Donor)
rows_or_throw (ok rows) = ok rows
rows_or_throw (err (error class name message (some code))) =
    if code == "P2025" then ok [] else err (error class name message (some code))
rows_or_throw (err (error class name message none)) = err (error class name message none)
rows_or_throw (err (object message)) = err (object message)
rows_or_throw (err (thrown_value t)) = err (thrown_value t)

module _ (locale_le : String → String → Bool) (zod : Zod) (number : String → Option ℤ) where
  pub donor_of : String → List Stream → Donor → NgoDonor
  donor_of ngo_id streams donor =
      let own = map selected (select (is_of_donor donor.id) (select (is_of_ngo ngo_id) streams)) in
      record {
        id = donor.id;
        address = donor.address;
        total_committed = sum_committed (pos 0) own;
        committed_by_token = committed_totals_by_token locale_le own;
      }

  pub donor_page : ℕ → List NgoDonor → NgoDonorPage
  donor_page limit donors =
      if ltb limit (length donors)
      then record { donors = take limit donors; next_cursor = last_donor_id (take limit donors) }
      else record { donors = donors; next_cursor = none }

  -- `where: { streams: { some: { ngoId } } }`
  abbrev gives_to : String → List Stream → Donor → Bool
  gives_to ngo_id streams donor = any (is_of_donor donor.id) (select (is_of_ngo ngo_id) streams)

  -- GET /ngos/:id/donors; `behind` sorts by id and goes to the row behind the cursor.
  pub ngo_donors :
      (behind : Option String → List Donor → Result (List Donor))
      → (id limit cursor : Field) → List Stream
      → List Donor
      → List NgoRow
      → Result (Reply NgoDonorPage)
  unfolding rows_or_throw donor_page donor_of
  ngo_donors behind id limit cursor streams donors ngos = elim (parse_uuid zod id) [
    | none ↦ ok (refused 400 "invalid_request")
    | some ngo_id ↦ elim (parse_number number 1 100 100 limit) [
      | none ↦ ok (refused 400 "invalid_request")
      | some limit ↦ elim (parse_optional (λ s. when (zod.is_uuid s) s) cursor) [
        | none ↦ ok (refused 400 "invalid_request")
        | some cursor ↦ elim (find_first (has_id ngo_id) ngos) [
          | none ↦ ok (refused 404 "not_found")
          | some ngo ↦
              elim (rows_or_throw (behind cursor (select (gives_to ngo_id streams) donors))) [
                | err e ↦ err e
                | ok rows ↦ ok (
                    replied 200
                      (donor_page limit (map (donor_of ngo_id streams) (take (limit + 1) rows))))
              ]
        ]
      ]
    ]
  ]
