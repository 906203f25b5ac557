-- ===== src/Routes/Donors/Exported.antt =====
-- What a reader of CSV files makes of the export of a donor's streams in src/routes/donors.ts.
use mathlib.Core.Path.{subst}
use streamgive_backend.Prelude.{
  ℕ, ◌≡◌, refl, ap, ◌∙◌, String, true, Option, none, some, Option-cases, inl, inr, List, [], ◌∷◌,
  map, codes, find_first, any, nat_eq, if◌then◌else◌, select, ltb, length, All, arith,
}
use streamgive_backend.Db.{Stream, Donor}
use streamgive_backend.Routes.Reply.{Reply, refused, replied}
use streamgive_backend.Routes.NgoRows.{NgoRow, has_id}
use streamgive_backend.Routes.Donors.{is_of_donor, has_address}
use streamgive_backend.Routes.Donors.Csv.{guarded}
use streamgive_backend.Routes.Donors.Csv.Parse.{read_file, shown, read_file-csv_content}
use streamgive_backend.Routes.Donors.Export.{
  CsvFile, csv_headers, csv_row, csv_rows, csv_file, export_streams, as_field,
}
use streamgive_backend.Routes.Applications.Schema.{Field, parse_address}

-- The code points that a spreadsheet takes for the start of a formula: = + - @, tab and carriage return.
abbrev pub formula_starts : List ℕ
formula_starts = 61 ∷ 43 ∷ 45 ∷ 64 ∷ 9 ∷ 13 ∷ []

-- A text with a single quote (39) before it where it starts like a formula.
abbrev pub harmless : List ℕ → List ℕ
harmless [] = []
harmless (c ∷ cs) = if any (nat_eq c) formula_starts then 39 ∷ c ∷ cs else c ∷ cs

guarded-harmless : (cs : List ℕ) → guarded cs ≡ harmless cs
guarded-harmless [] = refl
guarded-harmless (c ∷ cs) = ground arith

-- The texts of a row as the reader finds them.
abbrev pub shown_row : List String → List (List ℕ)
shown_row = map (λ s. harmless (codes s))

map-shown : (row : List String) → map shown (map as_field row) ≡ shown_row row
map-shown [] = refl
map-shown (s ∷ row) = λ i. guarded-harmless (codes s) i ∷ map-shown row i

map-shown_rows :
    (rows : List (List String)) → map (map shown) (map (map as_field) rows) ≡ map shown_row rows
map-shown_rows [] = refl
map-shown_rows (row ∷ rows) = λ i. map-shown row i ∷ map-shown_rows rows i

module _ (to_iso_string : ℕ → String) (by_created_at : List Stream → List Stream) where
  csv_rows-long :
      (ngos : List NgoRow) (streams : List Stream)
      → All
          (λ row. ltb 0 (length row) ≡ true)
          (map (map as_field) (csv_rows to_iso_string by_created_at ngos streams))
  unfolding csv_rows csv_row
  csv_rows-long ngos [] = tt
  csv_rows-long ngos (stream ∷ streams) =
      let rest = csv_rows-long ngos streams in go (find_first (has_id stream.ngo_id) ngos) rest
    where
      go :
          (found : Option NgoRow)
          → All
              (λ row. ltb 0 (length row) ≡ true)
              (map (map as_field) (csv_rows to_iso_string by_created_at ngos streams))
          → All
              (λ row. ltb 0 (length row) ≡ true)
              (map (map as_field) (elim found as (λ _. List (List String)) [
                | none ↦ csv_rows to_iso_string by_created_at ngos streams
                | some ngo ↦
                    csv_row to_iso_string by_created_at stream ngo
                    ∷ csv_rows to_iso_string by_created_at ngos streams
              ]))
      go none rest = rest
      go (some ngo) rest = (refl, rest)

  read_file-csv_file :
      (address : String) (ngos : List NgoRow) (streams : List Stream)
      → read_file (csv_file to_iso_string by_created_at address ngos streams).body
        ≡ map shown_row
            (csv_headers ∷ csv_rows to_iso_string by_created_at ngos (by_created_at streams))
  unfolding csv_file
  read_file-csv_file address ngos streams =
      let rows = csv_headers ∷ csv_rows to_iso_string by_created_at ngos (by_created_at streams) in
      read_file-csv_content (map (map as_field) rows)
        (refl, csv_rows-long ngos (by_created_at streams))
      ∙ map-shown_rows rows

  file_or : CsvFile → Reply CsvFile → CsvFile
  file_or default (refused status problem) = default
  file_or default (replied status file) = file

  -- When the route answers with a file, there is a donor with the address that was asked for, and a
  -- reader of RFC 4180 reads the file as the line of headers and a line for each of the donor's streams
  -- whose NGO is in the table, in their order: each text exactly, with a single quote before it where it
  -- starts like a formula.
  pub export_streams_read :
      (address : Field) (donors : List Donor) (streams : List Stream) (ngos : List NgoRow)
      {file : CsvFile}
      → export_streams to_iso_string by_created_at address donors streams ngos ≡ replied 200 file
      → (asked : String) × (donor : Donor) × (parse_address address ≡ some asked)
        × (find_first (has_address asked) donors ≡ some donor)
        × (read_file file.body
            ≡ map shown_row (
                csv_headers
                ∷ csv_rows to_iso_string by_created_at ngos
                    (by_created_at (select (is_of_donor donor.id) streams))))
  unfolding export_streams file_or
  export_streams_read address donors streams ngos {file} h =
      elim (Option-cases (parse_address address)) [
        | inl e ↦ absurd (ground (arith, e, h))
        | inr (asked, e) ↦ elim (Option-cases (find_first (has_address asked) donors)) [
          | inl none_found ↦ absurd (ground (arith, e, none_found, h))
          | inr (donor, found) ↦
              let own = select (is_of_donor donor.id) streams in
              let written = csv_file to_iso_string by_created_at asked ngos own in
              let same : replied 200 written ≡ replied 200 file = ground (arith, e, found, h) in
              (
                asked,
                donor,
                e,
                found,
                subst
                    (λ (f : CsvFile).
                      read_file f.body
                      ≡ map shown_row (
                          csv_headers
                          ∷ csv_rows to_iso_string by_created_at ngos (by_created_at own)))
                    (ap (file_or file) same) (read_file-csv_file asked ngos own),
              )
        ]
      ]
