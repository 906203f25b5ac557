-- ===== src/Tests/Impact.antt =====
-- The share of an NGO in src/routes/impact.ts and the numbers of its page, of three streams.
use streamgive_backend.Prelude.{true, none, List, [], ◌∷◌, ◌≡◌, refl, pos, All}
use streamgive_backend.Db.{Stream, cancelled, NgoApplication}
use streamgive_backend.Routes.Reply.{replied}
use streamgive_backend.Routes.NgoRows.{NgoRow}
use streamgive_backend.Routes.Applications.Schema.{Zod, text, parse_uuid, string}
use streamgive_backend.Routes.Impact.{ngo_impact, ngo_impact_of, share}
use streamgive_backend.Routes.Impact.Share.{IsFunded, IsShare, ngo_impact-IsShare}
use streamgive_backend.Routes.Ngos.Detail.{NgoDetail, detail_of}
use streamgive_backend.Routes.Ngos.Agrees.{Agrees}
use streamgive_backend.Tests.Fixtures.{stream}
use streamgive_backend.Tests.TextOrder.{text_lt}

abbrev any_text : Zod
any_text = record { is_email = λ s. true; is_url = λ s. true; is_uuid = λ s. true }

abbrev ngo : NgoRow
ngo = record {
  id = "n1";
  owner_address = "GNGO";
  name = "Name";
  display_name = none;
  verified = true;
  created_at = 1;
  updated_at = 1;
}

-- The second stream is another NGO's; the third one counts for what was withdrawn.
abbrev streams : List Stream
streams = stream ∷ record stream { ngo_id = "n2" } ∷ record stream { status = cancelled } ∷ []

funded : All IsFunded streams
funded = ((refl, refl), ((refl, refl), ((refl, refl), tt)))

found :
    ngo_impact (λ a b. true) any_text (text "n1") streams streams (ngo ∷ [])
    ≡ replied 200 (ngo_impact_of (λ a b. true) streams streams ngo)
unfolding ngo_impact parse_uuid string
found = refl

-- 110 of 215.
half : share (pos 110) (pos 215) ≡ pos 51162790697674
unfolding share
half = refl

ngo_impact-IsShare_example : IsShare streams (ngo_impact_of (λ a b. true) streams streams ngo)
ngo_impact-IsShare_example =
    ngo_impact-IsShare (λ a b. true) any_text (text "n1") streams (ngo ∷ []) funded found

abbrev applications : List NgoApplication → List NgoApplication
applications rows = rows

abbrev page : NgoDetail
page = detail_of (λ a b. true) text_lt applications [] [] streams ngo
