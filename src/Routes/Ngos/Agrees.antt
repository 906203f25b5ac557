-- ===== src/Routes/Ngos/Agrees.antt =====
-- The statistics of one NGO in src/routes/ngos.ts and its impact in src/routes/impact.ts, which count the
-- same streams in different ways.
use streamgive_backend.Prelude.{◌≡◌, String, Bool, List}
use streamgive_backend.Db.{NgoApplication}
use streamgive_backend.Routes.Reply.{Reply, refused, replied}
use streamgive_backend.Routes.Impact.{NgoImpact}
use streamgive_backend.Routes.Ngos.Detail.{NgoDetail, NgoStats}

-- The two bodies name the same NGO and the same numbers.
pub record Agrees (stats : NgoStats) (body : NgoImpact) : Type 0 where
  pub total_committed : stats.total_committed ≡ body.total_committed
  pub committed_by_token : stats.committed_by_token ≡ body.committed_by_token
  pub total_withdrawn : stats.total_withdrawn ≡ body.total_withdrawn
  pub active_streams : stats.active_stream_count ≡ body.active_streams
  pub donors : stats.donor_count ≡ body.unique_donors

module _ (locale_le text_lt : String → String → Bool)
    (by_updated_at : List NgoApplication → List NgoApplication) where
  body_or : NgoDetail → Reply NgoDetail → NgoDetail
  body_or default (refused status problem) = default
  body_or default (replied status body) = body
