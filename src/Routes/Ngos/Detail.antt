-- ===== src/Routes/Ngos/Detail.antt =====
-- The routes GET /ngos/lookup and GET /ngos/:id of src/routes/ngos.ts. The sorting of
-- the applications by their last update is a parameter.
use streamgive_backend.Prelude.{
  ℕ, ◌+◌, String, Bool, true, false, not, ◌&&◌, ◌||◌, nat_eq, Option, none, some, List, [], ◌∷◌,
  map, ◌==◌, find_first, select, count_where, length, take, get_last?, ltb, if◌then◌else◌, ℤ, pos,
  ◌+ℤ◌,
}
use streamgive_backend.Db.{
  Stream, StreamStatus, active, cancelled, Donor, NgoApplication, approved, pending, rejected,
}
use streamgive_backend.Routes.Reply.{Reply, refused, replied}
use streamgive_backend.Routes.Keyset.{sort_by}
use streamgive_backend.Routes.NgoRows.{NgoRow, get_public_ngo_name, has_id}
use streamgive_backend.Routes.TokenTotals.{TokenTotal, committed_totals_by_token}
use streamgive_backend.Routes.Donors.{selected, count_distinct}
use streamgive_backend.Routes.Impact.{is_active, is_of_ngo}
use streamgive_backend.Routes.Applications.Schema.{Field, Zod, parse_uuid, parse_address}

abbrev pub recent_streams_limit : ℕ
recent_streams_limit = 10

-- The columns of the aggregate query, whose sums start from the last row.
abbrev pub stream_committed : Stream → ℤ
stream_committed stream = elim stream.status [
  | cancelled ↦ stream.withdrawn
  | active ↦ stream.balance +ℤ stream.withdrawn
]

unfoldable pub sql_sum : (Stream → ℤ) → List Stream → ℤ
sql_sum f [] = pos 0
sql_sum f (stream ∷ streams) = f stream +ℤ sql_sum f streams

pub record NgoStats : Type 0 where
  pub total_committed : ℤ
  pub committed_by_token : List TokenTotal
  pub total_withdrawn : ℤ
  pub active_stream_count : ℕ
  pub donor_count : ℕ

-- The columns of a recent stream that are selected.
pub record RecentStream : Type 0 where
  pub id : String
  pub on_chain_id : ℤ
  pub donor_address : String
  pub token_address : String
  pub rate : ℤ
  pub balance : ℤ
  pub withdrawn : ℤ
  pub status : StreamStatus
  pub created_at : ℕ

abbrev recent_stream : Stream → Donor → RecentStream
recent_stream stream donor = record {
  id = stream.id;
  on_chain_id = stream.on_chain_id;
  donor_address = donor.address;
  token_address = stream.token_address;
  rate = stream.rate;
  balance = stream.balance;
  withdrawn = stream.withdrawn;
  status = stream.status;
  created_at = stream.created_at;
}

abbrev is_donor : String → Donor → Bool
is_donor id donor = donor.id == id

-- `donor: { select: { address } }`: the foreign key lets no stream be without its donor.
pub recent_streams_of : List Donor → List Stream → List RecentStream
recent_streams_of donors [] = []
recent_streams_of donors (stream ∷ streams) =
    let rest = recent_streams_of donors streams in
    elim (find_first (is_donor stream.donor_id) donors) [
      | none ↦ rest
      | some donor ↦ recent_stream stream donor ∷ rest
    ]

pub record NgoDetail : Type 0 where
  pub ngo : NgoRow
  pub name : Option String
  pub registered : Bool
  pub description : Option String
  pub website : Option String
  pub country : Option String
  pub stats : NgoStats
  pub recent_streams : List RecentStream
  pub recent_streams_next_cursor : Option String

abbrev is_approved_of : String → NgoApplication → Bool
is_approved_of owner_address row =
    row.owner_address == owner_address
    && elim row.status [ approved ↦ true | pending ↦ false | rejected ↦ false ]

abbrev last_stream_id : List Stream → Option String
last_stream_id streams = elim (get_last? streams) [ none ↦ none | some stream ↦ some stream.id ]

abbrev owned_by : String → NgoRow → Bool
owned_by address ngo = ngo.owner_address == address

-- `text_lt` compares ids as the database does.
module _ (locale_le text_lt : String → String → Bool)
    (by_updated_at : List NgoApplication → List NgoApplication) where
  -- `orderBy: [{ createdAt: 'desc' }, { id: 'desc' }]`
  abbrev pub is_more_recent : Stream → Stream → Bool
  is_more_recent a b =
      ltb b.created_at a.created_at || (nat_eq a.created_at b.created_at && text_lt b.id a.id)

  unfoldable pub stats_of : List Stream → NgoStats
  unfolding sql_sum
  stats_of own = record {
    total_committed = sql_sum stream_committed own;
    committed_by_token = committed_totals_by_token locale_le (map selected own);
    total_withdrawn = sql_sum (λ s. s.withdrawn) own;
    active_stream_count = count_where is_active own;
    donor_count = count_distinct (map (λ (s : Stream). s.donor_id) own);
  }

  -- The answer for a row that `findUnique` found.
  unfoldable pub detail_of : List NgoApplication → List Donor → List Stream → NgoRow → NgoDetail
  unfolding stats_of recent_streams_of
  detail_of applications donors streams ngo =
      let own = select (is_of_ngo ngo.id) streams in
      let recent = take (recent_streams_limit + 1) (sort_by is_more_recent own) in
      let approved_app =
        find_first (is_approved_of ngo.owner_address) (by_updated_at applications) in
      record {
        ngo = ngo;
        name = get_public_ngo_name ngo;
        registered = not (ngo.name == "");
        description = elim approved_app [ none ↦ none | some row ↦ some row.description ];
        website = elim approved_app [ none ↦ none | some row ↦ row.website ];
        country = elim approved_app [ none ↦ none | some row ↦ row.country ];
        stats = stats_of own;
        recent_streams = recent_streams_of donors (take recent_streams_limit recent);
        recent_streams_next_cursor =
            (if ltb recent_streams_limit (length recent)
              then last_stream_id (take recent_streams_limit recent)
              else none);
      }

  abbrev pub find_ngo_detail :
      (NgoRow → Bool)
      → List NgoApplication
      → List Donor
      → List Stream
      → List NgoRow
      → Reply NgoDetail
  find_ngo_detail where_ applications donors streams ngos = elim (find_first where_ ngos) [
    | none ↦ refused 404 "not_found"
    | some ngo ↦ replied 200 (detail_of applications donors streams ngo)
  ]

  -- GET /ngos/lookup
  pub lookup_ngo :
      Field → List NgoApplication → List Donor → List Stream → List NgoRow → Reply NgoDetail
  lookup_ngo address applications donors streams ngos = elim (parse_address address) [
    | none ↦ refused 400 "invalid_request"
    | some address ↦ find_ngo_detail (owned_by address) applications donors streams ngos
  ]

  -- GET /ngos/:id
  unfoldable pub ngo_detail :
      Zod → Field → List NgoApplication → List Donor → List Stream → List NgoRow → Reply NgoDetail
  ngo_detail zod id applications donors streams ngos = elim (parse_uuid zod id) [
    | none ↦ refused 400 "invalid_request"
    | some id ↦ find_ngo_detail (has_id id) applications donors streams ngos
  ]
