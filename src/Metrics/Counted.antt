-- ===== src/Metrics/Counted.antt =====
-- What the maps of src/metrics.ts hold after some requests, against a count over these requests.
use streamgive_backend.Prelude.{
  ℕ, suc, ◌+◌, ◌≡◌, refl, sym, ap, ◌∙◌, Bool, true, false, ◌&&◌, none, some, List, [], ◌∷◌, map,
  any, count_where, leb, nat_eq_iff, if◌then◌else◌, Bool-cases, inl, inr, arith,
}
use streamgive_backend.Metrics.{
  HttpKey, same_codes, Bucket, http_duration_buckets, Histogram, HttpMetrics, no_requests, http_key,
  get_entry, set_entry, fresh_histogram, add_to_buckets, observe, or_zero, or_fresh,
  record_http_request,
}

pub record HttpRequest : Type 0 where
  pub method : List ℕ
  pub route : List ℕ
  pub status_code : ℕ
  pub duration : ℕ

abbrev pub key_of : HttpRequest → HttpKey
key_of r = http_key r.method r.route r.status_code

abbrev pub has_http_key : HttpKey → HttpRequest → Bool
has_http_key key r = same_codes (key_of r) key

-- The maps after some requests, the latest of them first.
unfoldable pub recorded : List HttpRequest → HttpMetrics
unfolding record_http_request
recorded [] = no_requests
recorded (r ∷ rs) = record_http_request r.method r.route r.status_code r.duration (recorded rs)

abbrev pub total_duration : HttpKey → List HttpRequest → ℕ
total_duration key [] = 0
total_duration key (r ∷ rs) = (if has_http_key key r then r.duration else 0) + total_duration key rs

abbrev within_bound : HttpKey → Bucket → HttpRequest → Bool
within_bound key b r = has_http_key key r && leb r.duration b.bound

-- The histogram of a key, counted over the requests.
abbrev pub tally : HttpKey → List HttpRequest → Histogram
tally key rs = record {
  count = count_where (has_http_key key) rs;
  sum = total_duration key rs;
  buckets = map (λ b. count_where (within_bound key b) rs) http_duration_buckets;
}

pub same_codes→eq : (cs ds : List ℕ) → same_codes cs ds ≡ true → cs ≡ ds
same_codes→eq [] [] h = refl
same_codes→eq [] (d ∷ ds) h = absurd (ground arith)
same_codes→eq (c ∷ cs) [] h = absurd (ground arith)
same_codes→eq (c ∷ cs) (d ∷ ds) h = ground (arith, same_codes→eq cs ds, nat_eq_iff c d)

pub same_codes-same : (cs : List ℕ) → same_codes cs cs ≡ true
same_codes-same [] = refl
same_codes-same (c ∷ cs) = ground (arith, same_codes-same cs, nat_eq_iff c c)

module _ {A : Type 0} where
  pub get_entry-set_entry :
      (key : HttpKey) (value : A) (entries : List (HttpKey × A))
      → get_entry key (set_entry key value entries) ≡ some value
  unfolding get_entry set_entry
  get_entry-set_entry key value [] = ground (arith, same_codes-same key)
  get_entry-set_entry key value (entry ∷ entries) =
      ground (arith, same_codes-same key, get_entry-set_entry key value entries)

  pub get_entry-set_entry_same :
      (key changed : HttpKey) (value : A) (entries : List (HttpKey × A))
      → same_codes changed key ≡ true
      → get_entry key (set_entry changed value entries) ≡ some value
  get_entry-set_entry_same key changed value entries h =
      ap (λ k. get_entry k (set_entry changed value entries)) (sym (same_codes→eq changed key h))
      ∙ get_entry-set_entry changed value entries

  pub get_entry-set_entry_ne :
      (key changed : HttpKey) (value : A) (entries : List (HttpKey × A))
      → same_codes changed key ≡ false
      → get_entry key (set_entry changed value entries) ≡ get_entry key entries
  unfolding get_entry set_entry
  get_entry-set_entry_ne key changed value [] h = rw h refl
  get_entry-set_entry_ne key changed value (entry ∷ entries) h =
      let tail = get_entry-set_entry_ne key changed value entries h in
      elim (Bool-cases (same_codes entry.0 changed)) [
        | inl e ↦
            let other = ap (λ k. same_codes k key) (same_codes→eq entry.0 changed e) in
            rw e (rw h (rw (other ∙ h) refl))
        | inr e ↦ ground (arith, e, tail)
      ]

-- A request that is observed is counted.
count_where-within_bound :
    (key : HttpKey) (r : HttpRequest) (rs : List HttpRequest) (bs : List Bucket)
    → has_http_key key r ≡ true
    → add_to_buckets r.duration bs (map (λ b. count_where (within_bound key b) rs) bs)
      ≡ map (λ b. count_where (within_bound key b) (r ∷ rs)) bs
count_where-within_bound key r rs [] h = refl
count_where-within_bound key r rs (b ∷ bs) h =
    let tail = count_where-within_bound key r rs bs h in ground (arith, h, tail)

count_where-none_of :
    (p q : HttpRequest → Bool) (rs : List HttpRequest)
    → any p rs ≡ false
    → count_where (λ r. p r && q r) rs ≡ 0
count_where-none_of p q [] h = refl
count_where-none_of p q (r ∷ rs) h = ground (arith, h, count_where-none_of p q rs)

module _ (key : HttpKey) where
  count_where-within_none :
      (rs : List HttpRequest) (bs : List Bucket)
      → any (has_http_key key) rs ≡ false
      → map (λ b. count_where (within_bound key b) rs) bs ≡ map (λ b. 0) bs
  count_where-within_none rs [] h = refl
  count_where-within_none rs (b ∷ bs) h =
      let tail = count_where-within_none rs bs h in
      let none_here = count_where-none_of (has_http_key key) (λ r. leb r.duration b.bound) rs h in
      rw none_here (ap (λ counters. 0 ∷ counters) tail)

  count_where-has_http_key_none :
      (rs : List HttpRequest)
      → any (has_http_key key) rs ≡ false
      → count_where (has_http_key key) rs ≡ 0
  count_where-has_http_key_none [] h = refl
  count_where-has_http_key_none (r ∷ rs) h = ground (arith, h, count_where-has_http_key_none rs)

  total_duration_none :
      (rs : List HttpRequest) → any (has_http_key key) rs ≡ false → total_duration key rs ≡ 0
  total_duration_none [] h = refl
  total_duration_none (r ∷ rs) h = ground (arith, h, total_duration_none rs)

  tally_none :
      (rs : List HttpRequest) → any (has_http_key key) rs ≡ false → tally key rs ≡ fresh_histogram
  tally_none rs h = rw (count_where-has_http_key_none rs h) (
      rw (total_duration_none rs h) (
        ap (λ counters. record { count = 0; sum = 0; buckets = counters })
          (count_where-within_none rs http_duration_buckets h)))

  -- What the maps hold under the key.
  abbrev pub Counted : List HttpRequest → Type 0
  Counted rs =
      (get_entry key (recorded rs).http_requests
        ≡ (if any (has_http_key key) rs then some (count_where (has_http_key key) rs) else none))
      × (get_entry key (recorded rs).http_duration
          ≡ (if any (has_http_key key) rs then some (tally key rs) else none))

  or_zero-Counted :
      (rs : List HttpRequest)
      → Counted rs
      → or_zero (get_entry key (recorded rs).http_requests) ≡ count_where (has_http_key key) rs
  or_zero-Counted rs c = rw c.0 (elim (Bool-cases (any (has_http_key key) rs)) [
    | inl e ↦ rw e refl
    | inr e ↦ rw e (sym (count_where-has_http_key_none rs e))
  ])

  or_fresh-Counted :
      (rs : List HttpRequest)
      → Counted rs
      → or_fresh (get_entry key (recorded rs).http_duration) ≡ tally key rs
  or_fresh-Counted rs c = rw c.1 (elim (Bool-cases (any (has_http_key key) rs)) [
    | inl e ↦ rw e refl
    | inr e ↦ rw e (sym (tally_none rs e))
  ])

  observe-tally :
      (r : HttpRequest) (rs : List HttpRequest)
      → has_http_key key r ≡ true
      → observe r.duration (tally key rs) ≡ tally key (r ∷ rs)
  observe-tally r rs h =
      let counts : suc (count_where (has_http_key key) rs)
          ≡ count_where (has_http_key key) (r ∷ rs) =
        ground (arith, h) in
      let sums : total_duration key rs + r.duration ≡ total_duration key (r ∷ rs) =
        ground (arith, h) in
      let buckets = count_where-within_bound key r rs http_duration_buckets h in
      λ i. record { count = counts i; sum = sums i; buckets = buckets i }

  count_where-within_other :
      (r : HttpRequest) (rs : List HttpRequest) (bs : List Bucket)
      → has_http_key key r ≡ false
      → map (λ b. count_where (within_bound key b) (r ∷ rs)) bs
        ≡ map (λ b. count_where (within_bound key b) rs) bs
  count_where-within_other r rs [] h = refl
  count_where-within_other r rs (b ∷ bs) h =
      let tail = count_where-within_other r rs bs h in ground (arith, h, tail)

  tally_other :
      (r : HttpRequest) (rs : List HttpRequest)
      → has_http_key key r ≡ false
      → tally key (r ∷ rs) ≡ tally key rs
  tally_other r rs h =
      let counts : count_where (has_http_key key) (r ∷ rs) ≡ count_where (has_http_key key) rs =
        ground (arith, h) in
      let sums : total_duration key (r ∷ rs) ≡ total_duration key rs = ground (arith, h) in
      let buckets = count_where-within_other r rs http_duration_buckets h in
      λ i. record { count = counts i; sum = sums i; buckets = buckets i }

  -- A request under the key.
  Counted-seen :
      (r : HttpRequest) (rs : List HttpRequest)
      → has_http_key key r ≡ true
      → Counted rs
      → Counted (r ∷ rs)
  unfolding recorded record_http_request
  Counted-seen r rs h c =
      let same = same_codes→eq (key_of r) key h in
      let m = recorded rs in
      let counter = or_zero (get_entry (key_of r) m.http_requests) in
      let current = or_fresh (get_entry (key_of r) m.http_duration) in
      let before : counter ≡ count_where (has_http_key key) rs =
        ap (λ k. or_zero (get_entry k m.http_requests)) same ∙ or_zero-Counted rs c in
      let counts : counter + 1 ≡ count_where (has_http_key key) (r ∷ rs) =
        ground (arith, h, before) in
      let tallied : current ≡ tally key rs =
        ap (λ k. or_fresh (get_entry k m.http_duration)) same ∙ or_fresh-Counted rs c in
      let seen : any (has_http_key key) (r ∷ rs) ≡ true = rw h refl in
      let histogram = ap (observe r.duration) tallied ∙ observe-tally r rs h in
      (
        rw seen (
            get_entry-set_entry_same key (key_of r) (counter + 1) m.http_requests h
            ∙ ap some counts),
        rw seen (
            get_entry-set_entry_same key (key_of r) (observe r.duration current) m.http_duration h
            ∙ ap some histogram),
      )

  -- A request under another key.
  Counted-other :
      (r : HttpRequest) (rs : List HttpRequest)
      → has_http_key key r ≡ false
      → Counted rs
      → Counted (r ∷ rs)
  unfolding recorded record_http_request
  Counted-other r rs h c =
      let m = recorded rs in
      let counter = or_zero (get_entry (key_of r) m.http_requests) in
      let current = or_fresh (get_entry (key_of r) m.http_duration) in
      let counts : count_where (has_http_key key) rs ≡ count_where (has_http_key key) (r ∷ rs) =
        ground (arith, h) in
      let seen : any (has_http_key key) (r ∷ rs) ≡ any (has_http_key key) rs = rw h refl in
      (
        rw seen (
            get_entry-set_entry_ne key (key_of r) (counter + 1) m.http_requests h
            ∙ c.0
            ∙ ap (λ n. if any (has_http_key key) rs then some n else none) counts),
        rw seen (
            get_entry-set_entry_ne key (key_of r) (observe r.duration current) m.http_duration h
            ∙ c.1
            ∙ ap (λ n. if any (has_http_key key) rs then some n else none)
                (sym (tally_other r rs h))),
      )

  -- After any requests the maps hold what a count over these requests gives: under every key, nothing
  -- when no request has it, and otherwise the number of the requests with this key, the sum of their
  -- durations, and for each bucket the number of those that did not last longer than its bound.
  pub recorded-Counted : (rs : List HttpRequest) → Counted rs
  unfolding recorded record_http_request get_entry
  recorded-Counted [] = (refl, refl)
  recorded-Counted (r ∷ rs) =
      let before = recorded-Counted rs in
      elim (Bool-cases (has_http_key key r)) [
        | inl h ↦ Counted-seen r rs h before
        | inr h ↦ Counted-other r rs h before
      ]
