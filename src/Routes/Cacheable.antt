-- ===== src/Routes/Cacheable.antt =====
-- src/routes/cacheable.ts. The text of the payload and its SHA-256 digest in base64url are given.
use Prim.Native.Char.{code}
use streamgive_backend.Prelude.{
  ℕ, String, Bool, ◌||◌, Option, none, some, List, [], ◌==◌, ◌<>◌, any, nat_eq, if◌then◌else◌,
}
use streamgive_backend.Middleware.AdminAuth.{split_comma, trim}

-- The `if-none-match` header: missing, or one text, or several.
pub data IfNoneMatch : Type 0 where
  missing : IfNoneMatch
  one : String → IfNoneMatch
  several : List String → IfNoneMatch

pub record Sent : Type 0 where
  pub status : ℕ
  pub cache_control : String
  pub etag : String
  pub body : Option String

-- `.replace(/^W\//, '')`
abbrev strip_slash : String → String → String
strip_slash whole String.[] = whole
strip_slash whole (String.◌∷◌ c s) = if nat_eq (code c) b'/' then s else whole

pub strip_weak : String → String
strip_weak String.[] = String.[]
strip_weak (String.◌∷◌ c s) =
    if nat_eq (code c) b'W' then strip_slash (String.◌∷◌ c s) s else String.◌∷◌ c s

abbrev candidates : IfNoneMatch → List String
candidates missing = []
candidates (one header) = split_comma header
candidates (several headers) = headers

abbrev names : String → String → Bool
names etag normalized = normalized == "*" || normalized == etag

pub matches_if_none_match : IfNoneMatch → String → Bool
unfolding strip_weak
matches_if_none_match header etag =
    any (λ candidate. names etag (strip_weak (trim candidate))) (candidates header)

pub send_public_cacheable : (digest : String → String) → IfNoneMatch → (body : String) → Sent
unfolding matches_if_none_match
send_public_cacheable digest header body =
    let etag : String = "\"" <> digest body <> "\"" in
    let cache_control : String = "public, max-age=30, stale-while-revalidate=60" in
    if matches_if_none_match header etag
    then record { status = 304; cache_control = cache_control; etag = etag; body = none }
    else record { status = 200; cache_control = cache_control; etag = etag; body = some body }
