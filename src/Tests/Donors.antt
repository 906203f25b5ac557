-- ===== src/Tests/Donors.antt =====
-- The theorems on the donors at a short ranking, and a CSV export.
use streamgive_backend.Prelude.{
  ℕ, String, find_first, select, true, ◌≡◌, refl, none, some, List, [], ◌∷◌, map, ◌≤◌, count_where,
  arith,
}
use streamgive_backend.Routes.Reply.{replied}
use streamgive_backend.Routes.Donors.{by_committed, desc, has_donor_id, has_address, is_of_donor}
use streamgive_backend.Routes.Keyset.{follow}
use streamgive_backend.Routes.Donors.Pages.{is_row_of, ranking, fetch_page, follow-ranking}
use streamgive_backend.Tests.TextOrder.{distinct}
use streamgive_backend.Routes.Donors.Csv.Parse.{read_file}
use streamgive_backend.Routes.Donors.Export.{
  CsvFile, csv_headers, csv_rows, csv_file, export_streams,
}
use streamgive_backend.Routes.Donors.Exported.{shown_row, export_streams_read}
use streamgive_backend.Routes.Applications.Schema.{text, parse_address, string}
use streamgive_backend.Routes.NgoRows.{NgoRow}
use streamgive_backend.Db.{Stream, Donor}
use streamgive_backend.Tests.Fixtures.{stream}

abbrev givers : List Donor
givers =
    record { id = "d1"; address = "GDONOR" }
    ∷ record { id = "d2"; address = "GOTHER" }
    ∷ record { id = "d3"; address = "GTHIRD" }
    ∷ []

givers_unique : (id : String) → count_where (is_row_of id) givers ≤ 1
givers_unique id =
    ground
      (arith, distinct "d1" "d2" id refl, distinct "d1" "d3" id refl, distinct "d2" "d3" id refl)

follow-ranking_example :
    (follow (fetch_page 2 (ranking (λ a b. true) by_committed desc (stream ∷ []) givers)) 4 none
      ≡ ranking (λ a b. true) by_committed desc (stream ∷ []) givers)
    × ((id : String)
        → count_where
            (has_donor_id id)
            (ranking (λ a b. true) by_committed desc (stream ∷ []) givers)
          ≡ count_where (is_row_of id) givers)
follow-ranking_example =
    follow-ranking (λ a b. true) by_committed desc (stream ∷ []) givers 2 4 givers_unique
      (omega arith) (omega arith)

abbrev to_iso_string : ℕ → String
to_iso_string n = "1970-01-01"

abbrev in_order : List Stream → List Stream
in_order streams = streams

abbrev donor_address : String
donor_address = "GAAAAAAAAAAAAAAAAAAAAAAAAAAAAAAAAAAAAAAAAAAAAAAAAAAAAWHF"

abbrev donors : List Donor
donors = record { id = "d1"; address = donor_address } ∷ []

-- A name that starts like a formula, with quotes, a comma and a line break.
abbrev ngos : List NgoRow
ngos =
    record {
      id = "n1";
      owner_address = "GNGO";
      name = "=\"a\",\nb";
      display_name = none;
      verified = true;
      created_at = 1;
      updated_at = 1;
    }
    ∷ []

abbrev exported : CsvFile
exported = csv_file to_iso_string in_order donor_address ngos (stream ∷ [])

answered :
    export_streams to_iso_string in_order (text donor_address) donors (stream ∷ []) ngos
    ≡ replied 200 exported
unfolding export_streams parse_address string
answered = refl

export_streams_read_example :
    (asked : String) × (donor : Donor) × (parse_address (text donor_address) ≡ some asked)
    × (find_first (has_address asked) donors ≡ some donor)
    × (read_file exported.body
        ≡ map shown_row (
            csv_headers
            ∷ csv_rows to_iso_string in_order ngos (select (is_of_donor donor.id) (stream ∷ []))))
export_streams_read_example =
    export_streams_read to_iso_string in_order (text donor_address) donors (stream ∷ []) ngos
      answered
