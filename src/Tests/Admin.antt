-- ===== src/Tests/Admin.antt =====
-- The theorems on the admin signature, at a request that is accepted and then repeated.
use streamgive_backend.Prelude.{
  ℕ, zero, suc, String, ◌≡◌, ◌≢◌, refl, true, none, some, List, [], ◌∷◌, pos, arith,
}
use streamgive_backend.Middleware.AdminAuth.{
  Crypto, Request, Used, passed, require_admin_signature, configured_admin_addresses,
}
use streamgive_backend.Middleware.AdminAuth.Replays.{pruned, run, passes_once}

abbrev pub repeat : ℕ → List ℕ
repeat zero = []
repeat (suc n) = 0 ∷ repeat n

-- Every key verifies every signature; base64 decodes to 64 bytes.
abbrev pub crypto : Crypto String
crypto = record {
  from_public_key = λ address. some address;
  verify = λ key hash sig. some true;
  from_base64 = λ text. repeat 64;
  from_hex = λ text. [];
  sha256 = λ bytes. bytes;
  utf8 = λ text. [];
  to_hex = λ bytes. "";
  number = λ text. some (pos 1700000000000);
}

abbrev request : Request
request = record {
  method = "POST";
  url = "/admin/replay";
  address = some "GADMIN";
  signature = some "c2ln";
  timestamp = some "1700000000000";
  raw_body = [];
}

-- A list with a blank entry and a repeated one.
configured_admin_addresses_run :
    configured_admin_addresses (some " GADMIN, ,GOTHER,GADMIN ") none ≡ "GADMIN" ∷ "GOTHER" ∷ []
unfolding configured_admin_addresses
configured_admin_addresses_run = refl

abbrev allowed : List String
allowed = "GADMIN" ∷ []

accepted :
    (require_admin_signature crypto allowed 1700000000000 1700000000001 request []).0 ≡ passed
unfolding require_admin_signature
accepted = refl

abbrev used : Used
used = (require_admin_signature crypto allowed 1700000000000 1700000000001 request []).1

-- The same headers with another body, after a pruning.
abbrev repeated : Request
repeated = record request { raw_body = 1 ∷ [] }

passes_once_example :
    (require_admin_signature crypto allowed 1700000200000 1700000200001 repeated
      (run crypto allowed (pruned 1700000100000 ∷ []) used)).0
    ≢ passed
passes_once_example =
    passes_once crypto allowed request repeated [] 1700000000000 1700000000001
      (pruned 1700000100000 ∷ []) 1700000200000 1700000200001 accepted refl
      (record { method = refl; url = refl; address = refl; timestamp = refl }) (omega arith, tt)
