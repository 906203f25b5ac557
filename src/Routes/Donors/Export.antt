-- ===== src/Routes/Donors/Export.antt =====
-- The CSV export of a donor's streams in src/routes/donors.ts, on the tables that its queries read: the
-- rows and the file. The sorting by the time of creation and `toISOString` are parameters.
use streamgive_backend.Prelude.{
  ℕ, String, ◌<>◌, Option, none, some, List, [], ◌∷◌, map, ◌==◌, codes, find_first, select,
  if◌then◌else◌, show_ℤ,
}
use streamgive_backend.Db.{Stream, StreamStatus, active, cancelled, Donor}
use streamgive_backend.Routes.Reply.{Reply, refused, replied}
use streamgive_backend.Routes.NgoRows.{NgoRow, has_id}
use streamgive_backend.Routes.Donors.{is_of_donor, has_address}
use streamgive_backend.Routes.Donors.Csv.{csv_content}
use streamgive_backend.Routes.Applications.Schema.{Field, parse_address}

pub record CsvFile : Type 0 where
  pub content_disposition : String
  pub body : List ℕ

abbrev pub csv_headers : List String
csv_headers =
    "id" ∷ "onChainId" ∷ "ngoId" ∷ "ngoName" ∷ "ngoAddress" ∷ "tokenAddress" ∷ "rate" ∷ "lastRate"
    ∷ "balance" ∷ "withdrawn" ∷ "status" ∷ "createdTxHash" ∷ "createdAt" ∷ "updatedAt" ∷ []

-- `stream.ngo.displayName || stream.ngo.name || ''`
abbrev csv_ngo_name : NgoRow → String
csv_ngo_name ngo = elim ngo.display_name [
  | none ↦ ngo.name
  | some shown ↦ if shown == "" then ngo.name else shown
]

abbrev status_text : StreamStatus → String
status_text active = "ACTIVE"
status_text cancelled = "CANCELLED"

-- `?? ''`
abbrev or_empty : Option String → String
or_empty none = ""
or_empty (some s) = s

abbrev pub as_field : String → Option (List ℕ)
as_field s = some (codes s)

module _ (to_iso_string : ℕ → String) (by_created_at : List Stream → List Stream) where
  unfoldable pub csv_row : Stream → NgoRow → List String
  csv_row stream ngo =
      stream.id
      ∷ show_ℤ stream.on_chain_id
      ∷ stream.ngo_id
      ∷ csv_ngo_name ngo
      ∷ ngo.owner_address
      ∷ stream.token_address
      ∷ show_ℤ stream.rate
      ∷ or_empty (elim stream.last_rate [ none ↦ none | some rate ↦ some (show_ℤ rate) ])
      ∷ show_ℤ stream.balance
      ∷ show_ℤ stream.withdrawn
      ∷ status_text stream.status
      ∷ or_empty stream.created_tx_hash
      ∷ to_iso_string stream.created_at
      ∷ to_iso_string stream.updated_at
      ∷ []

  -- `include: { ngo }`: the foreign key lets no stream be without its NGO.
  unfoldable pub csv_rows : List NgoRow → List Stream → List (List String)
  unfolding csv_row
  csv_rows ngos [] = []
  csv_rows ngos (stream ∷ streams) =
      let rest = csv_rows ngos streams in
      elim (find_first (has_id stream.ngo_id) ngos) [
        | none ↦ rest
        | some ngo ↦ csv_row stream ngo ∷ rest
      ]

  unfoldable pub csv_file : String → List NgoRow → List Stream → CsvFile
  unfolding csv_rows
  csv_file address ngos streams = record {
    content_disposition = "attachment; filename=\"donor-" <> address <> "-streams.csv\"";
    body = csv_content (map (map as_field) (csv_headers ∷ csv_rows ngos (by_created_at streams)));
  }

  -- GET /donors/:address/streams.csv
  unfoldable pub export_streams : Field → List Donor → List Stream → List NgoRow → Reply CsvFile
  unfolding csv_file
  export_streams address donors streams ngos = elim (parse_address address) [
    | none ↦ refused 400 "invalid_request"
    | some address ↦ elim (find_first (has_address address) donors) [
      | none ↦ refused 404 "not_found"
      | some donor ↦ replied 200 (csv_file address ngos (select (is_of_donor donor.id) streams))
    ]
  ]
