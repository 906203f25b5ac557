-- ===== src/Metrics.antt =====
-- src/metrics.ts: the maps of the requests that the server counts, and their labels. A text is the list
-- of its code points, and a duration a number of nanoseconds.
pub mod Counted
pub mod Expected
pub mod Keys
pub mod Render
pub mod Same
pub mod Shown
use streamgive_backend.Prelude.{
  ℕ, suc, ◌+◌, Bool, true, false, ◌&&◌, Option, none, some, List, [], ◌∷◌, ◌++◌, map, leb, nat_eq,
  if◌then◌else◌, codes, show_ℕ, number_from,
}

abbrev pub HttpKey : Type 0
HttpKey = List ℕ

abbrev pub same_codes : List ℕ → List ℕ → Bool
same_codes [] [] = true
same_codes (c ∷ cs) (d ∷ ds) = nat_eq c d && same_codes cs ds
same_codes _ _ = false

-- The bound of a bucket in nanoseconds, and the text of the bound in seconds.
pub record Bucket : Type 0 where
  pub bound : ℕ
  pub shown : List ℕ

abbrev bucket : ℕ → List ℕ → Bucket
bucket bound shown = record { bound = bound; shown = shown }

abbrev pub http_duration_buckets : List Bucket
http_duration_buckets =
    bucket 5000000 (codes "0.005")
    ∷ bucket 10000000 (codes "0.01")
    ∷ bucket 25000000 (codes "0.025")
    ∷ bucket 50000000 (codes "0.05")
    ∷ bucket 100000000 (codes "0.1")
    ∷ bucket 250000000 (codes "0.25")
    ∷ bucket 500000000 (codes "0.5")
    ∷ bucket 1000000000 (codes "1")
    ∷ bucket 2500000000 (codes "2.5")
    ∷ bucket 5000000000 (codes "5")
    ∷ bucket 10000000000 (codes "10")
    ∷ []

pub record Histogram : Type 0 where
  pub count : ℕ
  pub sum : ℕ
  pub buckets : List ℕ

-- The maps `httpRequests` and `httpDuration`, in their order of insertion.
pub record HttpMetrics : Type 0 where
  pub http_requests : List (HttpKey × ℕ)
  pub http_duration : List (HttpKey × Histogram)

abbrev pub no_requests : HttpMetrics
no_requests = record { http_requests = []; http_duration = [] }

-- The template of an `HttpKey`.
abbrev pub http_key : (method route : List ℕ) (status_code : ℕ) → HttpKey
http_key method route status_code = method ++ 0 ∷ (route ++ 0 ∷ codes (show_ℕ status_code))

module _ {A : Type 0} where
  -- `Map.get`
  pub get_entry : HttpKey → List (HttpKey × A) → Option A
  get_entry key [] = none
  get_entry key (entry ∷ entries) =
      let rest = get_entry key entries in if same_codes entry.0 key then some entry.1 else rest

  -- `Map.set`: a key that is there keeps its place.
  pub set_entry : HttpKey → A → List (HttpKey × A) → List (HttpKey × A)
  set_entry key value [] = (key, value) ∷ []
  set_entry key value (entry ∷ entries) =
      let rest = set_entry key value entries in
      if same_codes entry.0 key then (key, value) ∷ entries else entry ∷ rest

abbrev pub fresh_histogram : Histogram
fresh_histogram = record { count = 0; sum = 0; buckets = map (λ b. 0) http_duration_buckets }

-- The `forEach` over the buckets, which adds to the counter at the same index.
abbrev pub add_to_buckets : (duration : ℕ) → List Bucket → List ℕ → List ℕ
add_to_buckets duration [] counters = counters
add_to_buckets duration (b ∷ bs) [] = []
add_to_buckets duration (b ∷ bs) (counter ∷ counters) =
    (if leb duration b.bound then suc counter else counter) ∷ add_to_buckets duration bs counters

abbrev pub observe : (duration : ℕ) → Histogram → Histogram
observe duration current = record {
  count = suc current.count;
  sum = current.sum + duration;
  buckets = add_to_buckets duration http_duration_buckets current.buckets;
}

abbrev pub or_zero : Option ℕ → ℕ
or_zero none = 0
or_zero (some n) = n

abbrev pub or_fresh : Option Histogram → Histogram
or_fresh none = fresh_histogram
or_fresh (some current) = current

pub record_http_request :
    (method route : List ℕ) (status_code duration : ℕ) → HttpMetrics → HttpMetrics
unfolding get_entry set_entry
record_http_request method route status_code duration m =
    let key = http_key method route status_code in
    record {
      http_requests = set_entry key (or_zero (get_entry key m.http_requests) + 1) m.http_requests;
      http_duration =
          set_entry key (observe duration (or_fresh (get_entry key m.http_duration)))
            m.http_duration;
    }

-- `replaceAll('"', '\\"')`
pub escape_quotes : List ℕ → List ℕ
escape_quotes [] = []
escape_quotes (c ∷ cs) =
    let rest = escape_quotes cs in if nat_eq c b'"' then b'\\' ∷ b'"' ∷ rest else c ∷ rest

pub labels : (method route : List ℕ) (status_code : ℕ) → List ℕ
unfolding escape_quotes
labels method route status_code =
    codes "method=\""
    ++ method
    ++ codes "\",route=\""
    ++ escape_quotes route
    ++ codes "\",status_code=\""
    ++ codes (show_ℕ status_code)
    ++ codes "\""

-- `key.split('\u0000')`
abbrev pub put_code : ℕ → List (List ℕ) → List (List ℕ)
put_code c [] = (c ∷ []) ∷ []
put_code c (piece ∷ pieces) = (c ∷ piece) ∷ pieces

abbrev pub split_key : HttpKey → List (List ℕ)
split_key [] = [] ∷ []
split_key (c ∷ cs) =
    let pieces = split_key cs in if nat_eq c 0 then [] ∷ pieces else put_code c pieces

-- The labels of a key. An `HttpKey` has at least three pieces; `none` stands for a text of fewer.
abbrev pub labels_of_pieces : List (List ℕ) → Option (List ℕ)
labels_of_pieces (method ∷ route ∷ status_code ∷ rest) =
    some (labels method route (number_from 0 status_code))
labels_of_pieces _ = none

pub key_labels : HttpKey → Option (List ℕ)
unfolding labels
key_labels key = labels_of_pieces (split_key key)
