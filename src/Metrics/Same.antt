-- ===== src/Metrics/Same.antt =====
-- Requests with the same method, route and status, against the keys of src/metrics.ts.
use streamgive_backend.Prelude.{
  ℕ, ◌+◌, ◌≡◌, refl, sym, ap, ◌∙◌, Bool, true, false, ◌&&◌, ◌||◌, none, some, List, [], ◌∷◌, any,
  get_elem?, count_where, leb, nat_eq, nat_eq_iff, if◌then◌else◌, Bool-cases, inl, inr, arith,
  number_from, number_from-show_ℕ, All,
}
use streamgive_backend.Metrics.{same_codes, http_key, split_key}
use streamgive_backend.Metrics.Keys.{is_nul, split_key-http_key}
use streamgive_backend.Metrics.Counted.{
  HttpRequest, key_of, has_http_key, total_duration, same_codes→eq, same_codes-same,
}

-- The method and the route hold no NUL.
abbrev pub IsClean : HttpRequest → Type 0
IsClean r = (any is_nul r.method ≡ false) × (any is_nul r.route ≡ false)

abbrev pub same_request : (method route : List ℕ) (status_code : ℕ) → HttpRequest → Bool
same_request method route status_code r =
    same_codes r.method method && (same_codes r.route route && nat_eq r.status_code status_code)

abbrev piece_at : ℕ → List (List ℕ) → List ℕ
piece_at n pieces = elim (get_elem? pieces n) [ none ↦ [] | some piece ↦ piece ]

same_request_of_parts :
    (method route : List ℕ) (status_code : ℕ) (r : HttpRequest)
    → r.method ≡ method
    → r.route ≡ route
    → r.status_code ≡ status_code
    → same_request method route status_code r ≡ true
same_request_of_parts method route status_code r m o s = ground (
  arith,
  ap (λ cs. same_codes cs method) m,
  same_codes-same method,
  ap (λ cs. same_codes cs route) o,
  same_codes-same route,
  nat_eq_iff r.status_code status_code,
  s,
)

has_http_key_of_same_request :
    (method route : List ℕ) (status_code : ℕ) (r : HttpRequest)
    → same_request method route status_code r ≡ true
    → has_http_key (http_key method route status_code) r ≡ true
has_http_key_of_same_request method route status_code r h =
    let m = same_codes→eq r.method method (ground (arith, h)) in
    let o = same_codes→eq r.route route (ground (arith, h)) in
    let s : r.status_code ≡ status_code = ground (arith, h, nat_eq_iff r.status_code status_code) in
    ap (λ k. same_codes k (http_key method route status_code)) (λ i. http_key (m i) (o i) (s i))
    ∙ same_codes-same (http_key method route status_code)

-- Keys of requests are equal when the requests have the same method, route and status.
pub has_http_key-same_request :
    (method route : List ℕ) (status_code : ℕ) (r : HttpRequest)
    → any is_nul method ≡ false
    → any is_nul route ≡ false
    → IsClean r
    → has_http_key (http_key method route status_code) r ≡ same_request method route status_code r
has_http_key-same_request method route status_code r hm hr c =
    let own = split_key-http_key r.method r.route r.status_code c.0 c.1 in
    let asked = split_key-http_key method route status_code hm hr in
    elim (Bool-cases (has_http_key (http_key method route status_code) r)) [
      | inl e ↦
          let keys =
            ap split_key (same_codes→eq (key_of r) (http_key method route status_code) e) in
          let pieces = sym own ∙ keys ∙ asked in
          let methods = ap (piece_at 0) pieces in
          let routes = ap (piece_at 1) pieces in
          let statuses : r.status_code ≡ status_code =
            sym (number_from-show_ℕ r.status_code)
            ∙ ap (λ ps. number_from 0 (piece_at 2 ps)) pieces
            ∙ number_from-show_ℕ status_code in
          rw e (sym (same_request_of_parts method route status_code r methods routes statuses))
      | inr e ↦ elim (Bool-cases (same_request method route status_code r)) [
        | inl s ↦
            absurd (ground (arith, e, has_http_key_of_same_request method route status_code r s))
        | inr s ↦ rw e (rw s refl)
      ]
    ]

module _ (method route : List ℕ) (status_code : ℕ) where
  pub count_where-same_request :
      (rs : List HttpRequest)
      → any is_nul method ≡ false
      → any is_nul route ≡ false
      → All IsClean rs
      → count_where (has_http_key (http_key method route status_code)) rs
        ≡ count_where (same_request method route status_code) rs
  count_where-same_request [] hm hr c = refl
  count_where-same_request (r ∷ rs) hm hr (h, c) =
      rw (has_http_key-same_request method route status_code r hm hr h) (
        ap (λ n. (if same_request method route status_code r then 1 else 0) + n)
          (count_where-same_request rs hm hr c))

  pub any-same_request :
      (rs : List HttpRequest)
      → any is_nul method ≡ false
      → any is_nul route ≡ false
      → All IsClean rs
      → any (has_http_key (http_key method route status_code)) rs
        ≡ any (same_request method route status_code) rs
  any-same_request [] hm hr c = refl
  any-same_request (r ∷ rs) hm hr (h, c) =
      rw (has_http_key-same_request method route status_code r hm hr h)
        (ap (λ b. same_request method route status_code r || b) (any-same_request rs hm hr c))

  -- The requests with these three that take a bounded time.
  abbrev pub within : ℕ → HttpRequest → Bool
  within bound r = same_request method route status_code r && leb r.duration bound

  pub count_where-within :
      (rs : List HttpRequest) (bound : ℕ)
      → any is_nul method ≡ false
      → any is_nul route ≡ false
      → All IsClean rs
      → count_where
          (λ r. has_http_key (http_key method route status_code) r && leb r.duration bound)
          rs
        ≡ count_where (within bound) rs
  count_where-within [] bound hm hr c = refl
  count_where-within (r ∷ rs) bound hm hr (h, c) =
      rw (has_http_key-same_request method route status_code r hm hr h)
        (ap (λ n. (if within bound r then 1 else 0) + n) (count_where-within rs bound hm hr c))

  -- The sum of their durations.
  abbrev pub time_spent : List HttpRequest → ℕ
  time_spent [] = 0
  time_spent (r ∷ rs) =
      if same_request method route status_code r then r.duration + time_spent rs else time_spent rs

  pub total_duration-time_spent :
      (rs : List HttpRequest)
      → any is_nul method ≡ false
      → any is_nul route ≡ false
      → All IsClean rs
      → total_duration (http_key method route status_code) rs ≡ time_spent rs
  total_duration-time_spent [] hm hr c = refl
  total_duration-time_spent (r ∷ rs) hm hr (h, c) =
      rw (has_http_key-same_request method route status_code r hm hr h)
        (ground (arith, total_duration-time_spent rs hm hr c))
