-- ===== src/Metrics/Expected.antt =====
-- The lines of src/metrics.ts for one method, route and status, written out over the requests.
use streamgive_backend.Prelude.{
  ℕ, ◌≡◌, refl, ap, false, List, [], ◌∷◌, ◌++◌, any, count_where, nat_eq, if◌then◌else◌, codes,
  show_ℕ, All, Bool-cases, inl, inr,
}
use streamgive_backend.Metrics.{labels, escape_quotes, http_key}
use streamgive_backend.Metrics.Keys.{is_nul}
use streamgive_backend.Metrics.Counted.{HttpRequest, tally}
use streamgive_backend.Metrics.Render.{request_lines, duration_lines}
use streamgive_backend.Metrics.Same.{
  IsClean, same_request, within, time_spent, count_where-same_request, count_where-within,
  total_duration-time_spent,
}

-- A character of a label: a quote stands behind a backslash.
abbrev quoted_code : ℕ → List ℕ
quoted_code c = if nat_eq c 34 then 92 ∷ 34 ∷ [] else c ∷ []

abbrev quoted : List ℕ → List ℕ
quoted [] = []
quoted (c ∷ cs) = quoted_code c ++ quoted cs

escape_quotes-quoted : (cs : List ℕ) → escape_quotes cs ≡ quoted cs
unfolding escape_quotes
escape_quotes-quoted [] = refl
escape_quotes-quoted (c ∷ cs) =
    let rest = escape_quotes-quoted cs in
    elim (Bool-cases (nat_eq c 34)) [
      | inl e ↦ rw e (ap (λ t. 92 ∷ 34 ∷ t) rest)
      | inr e ↦ rw e (ap (λ t. c ∷ t) rest)
    ]

abbrev label_text : (method route : List ℕ) (status_code : ℕ) → List ℕ
label_text method route status_code =
    codes "method=\""
    ++ method
    ++ codes "\",route=\""
    ++ quoted route
    ++ codes "\",status_code=\""
    ++ codes (show_ℕ status_code)
    ++ codes "\""

labels-label_text :
    (method route : List ℕ) (status_code : ℕ)
    → labels method route status_code ≡ label_text method route status_code
unfolding labels
labels-label_text method route status_code =
    ap
      (λ cs.
        codes "method=\""
        ++ method
        ++ codes "\",route=\""
        ++ cs
        ++ codes "\",status_code=\""
        ++ codes (show_ℕ status_code)
        ++ codes "\"")
      (escape_quotes-quoted route)

-- The line that counts the requests.
abbrev pub count_lines :
    (method route : List ℕ) (status_code : ℕ) → List HttpRequest → List (List ℕ)
count_lines method route status_code rs =
    (codes "streamgive_http_requests_total{"
      ++ label_text method route status_code
      ++ codes "} "
      ++ codes (show_ℕ (count_where (same_request method route status_code) rs)))
    ∷ []

abbrev bound_line : (shown le : List ℕ) (counter : ℕ) → List ℕ
bound_line shown le counter =
    codes "streamgive_http_request_duration_seconds_bucket{"
    ++ shown
    ++ codes ",le=\""
    ++ le
    ++ codes "\"} "
    ++ codes (show_ℕ counter)

-- The lines, from the labels, the number of requests that take at most some nanoseconds, the sum of
-- their durations, and their number.
abbrev lines_of :
    (seconds : ℕ → List ℕ) (shown : List ℕ) (at_most : ℕ → ℕ) (sum count : ℕ) → List (List ℕ)
lines_of seconds shown at_most sum count =
    bound_line shown (codes "0.005") (at_most 5000000)
    ∷ bound_line shown (codes "0.01") (at_most 10000000)
    ∷ bound_line shown (codes "0.025") (at_most 25000000)
    ∷ bound_line shown (codes "0.05") (at_most 50000000)
    ∷ bound_line shown (codes "0.1") (at_most 100000000)
    ∷ bound_line shown (codes "0.25") (at_most 250000000)
    ∷ bound_line shown (codes "0.5") (at_most 500000000)
    ∷ bound_line shown (codes "1") (at_most 1000000000)
    ∷ bound_line shown (codes "2.5") (at_most 2500000000)
    ∷ bound_line shown (codes "5") (at_most 5000000000)
    ∷ bound_line shown (codes "10") (at_most 10000000000)
    ∷ bound_line shown (codes "+Inf") count
    ∷ (codes "streamgive_http_request_duration_seconds_sum{" ++ shown ++ codes "} " ++ seconds sum)
    ∷ (codes "streamgive_http_request_duration_seconds_count{"
        ++ shown
        ++ codes "} "
        ++ codes (show_ℕ count))
    ∷ []

-- The histogram of the requests; `seconds` is the text of a sum of durations.
abbrev pub histogram_lines :
    (seconds : ℕ → List ℕ) (method route : List ℕ) (status_code : ℕ)
    → List HttpRequest
    → List (List ℕ)
histogram_lines seconds method route status_code rs =
    lines_of seconds (label_text method route status_code)
      (λ bound. count_where (within method route status_code bound) rs)
      (time_spent method route status_code rs)
      (count_where (same_request method route status_code) rs)

pub request_lines-count_lines :
    (method route : List ℕ) (status_code : ℕ) (rs : List HttpRequest)
    → request_lines
        (labels method route status_code)
        (count_where (same_request method route status_code) rs)
      ≡ count_lines method route status_code rs
request_lines-count_lines method route status_code rs =
    ap (λ own. request_lines own (count_where (same_request method route status_code) rs))
      (labels-label_text method route status_code)

pub duration_lines-histogram_lines :
    (seconds : ℕ → List ℕ) (method route : List ℕ) (status_code : ℕ) (rs : List HttpRequest)
    → any is_nul method ≡ false
    → any is_nul route ≡ false
    → All IsClean rs
    → duration_lines seconds
        (labels method route status_code)
        (tally (http_key method route status_code) rs)
      ≡ histogram_lines seconds method route status_code rs
duration_lines-histogram_lines seconds method route status_code rs hm hr c = λ i.
    lines_of seconds (labels-label_text method route status_code i)
      (λ bound. count_where-within method route status_code rs bound hm hr c i)
      (total_duration-time_spent method route status_code rs hm hr c i)
      (count_where-same_request method route status_code rs hm hr c i)
