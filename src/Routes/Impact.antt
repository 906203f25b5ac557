-- ===== src/Routes/Impact.antt =====
-- src/routes/impact.ts and src/services/impactService.ts, on the tables that their queries read. A share
-- is a whole number of 10^-12 percent, before its conversion to a Number.
pub mod Share
use streamgive_backend.Prelude.{
  ℕ, zero, suc, ◌+◌, ◌-◌, ◌*◌, ◌/◌, ◌^◌, String, Bool, true, false, Option, none, some, List, [],
  ◌∷◌, map, ◌==◌, find_first, select, count_where, length, ltb_ℤ, nat_eq, if◌then◌else◌, ℤ, pos,
  negsuc, pos_part, ◌+ℤ◌,
}
use streamgive_backend.Db.{Stream, StreamStatus, active, cancelled}
use streamgive_backend.Routes.Reply.{Reply, refused, replied}
use streamgive_backend.Routes.NgoRows.{NgoRow, get_public_ngo_name, has_id}
use streamgive_backend.Routes.TokenTotals.{TokenTotal, committed_totals_by_token}
use streamgive_backend.Routes.Donors.{sum_committed, sum_withdrawn, selected, count_distinct}
use streamgive_backend.Routes.Applications.Schema.{Field, Zod, parse_uuid}

abbrev pub is_active : Stream → Bool
is_active stream = elim stream.status [ active ↦ true | cancelled ↦ false ]

abbrev pub is_cancelled : Stream → Bool
is_cancelled stream = elim stream.status [ active ↦ false | cancelled ↦ true ]

abbrev pub is_of_ngo : String → Stream → Bool
is_of_ngo id stream = stream.ngo_id == id

abbrev is_verified : NgoRow → Bool
is_verified ngo = ngo.verified

pub record PlatformImpact : Type 0 where
  pub total_committed : ℤ
  pub committed_by_token : List TokenTotal
  pub total_withdrawn : ℤ
  pub active_streams : ℕ
  pub verified_ngo_count : ℕ

pub record NgoImpact : Type 0 where
  pub ngo_id : String
  pub name : Option String
  pub total_committed : ℤ
  pub committed_by_token : List TokenTotal
  pub platform_committed_by_token : List TokenTotal
  pub total_withdrawn : ℤ
  pub active_streams : ℕ
  pub cancelled_streams : ℕ
  pub unique_donors : ℕ
  pub platform_share_percent : ℤ

abbrev pub percent_scale : ℕ
percent_scale = 1000000000000

-- The product of a BigInt and a positive one, and its quotient by a positive one, rounded to zero.
abbrev pub times : ℤ → ℕ → ℤ
times (pos a) k = pos (a * k)
times (negsuc a) k = negsuc ((a + 1) * k - 1)

abbrev pub quotient : ℤ → ℕ → ℤ
quotient (pos a) n = pos (a / n)
quotient (negsuc a) n = if nat_eq ((a + 1) / n) 0 then pos 0 else negsuc ((a + 1) / n - 1)

-- `platformCommitted > 0n ? (ngoCommitted * 100n * percentScale) / platformCommitted : 0`
unfoldable pub share : ℤ → ℤ → ℤ
share ngo_committed platform_committed =
    if ltb_ℤ (pos 0) platform_committed
    then quotient (times (times ngo_committed 100) percent_scale) (pos_part platform_committed)
    else pos 0

-- `SUM(balance::numeric + withdrawn::numeric)`, or '0' where there is no row.
pub get_platform_total_sum : List Stream → ℤ
get_platform_total_sum [] = pos 0
get_platform_total_sum (stream ∷ streams) =
    (stream.balance +ℤ stream.withdrawn) +ℤ get_platform_total_sum streams

module _ (locale_le : String → String → Bool) where
  -- GET /impact
  pub platform_impact : List Stream → List NgoRow → PlatformImpact
  platform_impact streams ngos = record {
    total_committed = sum_committed (pos 0) (map selected streams);
    committed_by_token = committed_totals_by_token locale_le (map selected streams);
    total_withdrawn = sum_withdrawn (pos 0) (map selected streams);
    active_streams = count_where is_active streams;
    verified_ngo_count = count_where is_verified ngos;
  }

  -- `streams` is the table when the NGO is read with its streams, `later` when all streams are read after it.
  unfoldable pub ngo_impact_of : (streams later : List Stream) → NgoRow → NgoImpact
  ngo_impact_of streams later ngo =
      let own = select (is_of_ngo ngo.id) streams in
      record {
        ngo_id = ngo.id;
        name = get_public_ngo_name ngo;
        total_committed = sum_committed (pos 0) (map selected own);
        committed_by_token = committed_totals_by_token locale_le (map selected own);
        platform_committed_by_token = committed_totals_by_token locale_le (map selected later);
        total_withdrawn = sum_withdrawn (pos 0) (map selected own);
        active_streams = count_where is_active own;
        cancelled_streams = count_where is_cancelled own;
        unique_donors = count_distinct (map (λ (s : Stream). s.donor_id) own);
        platform_share_percent =
            share (sum_committed (pos 0) (map selected own))
              (sum_committed (pos 0) (map selected later));
      }

  abbrev found_impact : (streams later : List Stream) → Option NgoRow → Reply NgoImpact
  found_impact streams later none = refused 404 "not_found"
  found_impact streams later (some ngo) = replied 200 (ngo_impact_of streams later ngo)

  -- GET /impact/:ngoId
  unfoldable pub ngo_impact :
      Zod → Field → (streams later : List Stream) → List NgoRow → Reply NgoImpact
  ngo_impact zod ngo_id streams later ngos = elim (parse_uuid zod ngo_id) [
    | none ↦ refused 400 "invalid_request"
    | some id ↦ found_impact streams later (find_first (has_id id) ngos)
  ]
