-- ===== src/Metrics/Shown.antt =====
-- What `renderMetrics` of src/metrics.ts shows of the requests that were recorded.
use mathlib.Core.Path.{subst}
use streamgive_backend.Prelude.{
  ℕ, ◌+◌, ◌≡◌, refl, sym, ap, ◌∙◌, true, false, Option, some, List, [], ◌∷◌, ◌++◌, any, count_where,
  Bool-cases, inl, inr, arith, append_assoc, All,
}
use streamgive_backend.Db.Exec.{Metrics}
use streamgive_backend.Metrics.{
  HttpKey, same_codes, http_key, get_entry, set_entry, key_labels, labels, record_http_request,
  or_zero, or_fresh, observe,
}
use streamgive_backend.Metrics.Keys.{is_nul, key_labels-http_key}
use streamgive_backend.Metrics.Same.{
  IsClean, same_request, count_where-same_request, any-same_request,
}
use streamgive_backend.Metrics.Expected.{
  count_lines, histogram_lines, request_lines-count_lines, duration_lines-histogram_lines,
}
use streamgive_backend.Metrics.Counted.{
  HttpRequest, key_of, has_http_key, recorded, tally, same_codes→eq, recorded-Counted,
}
use streamgive_backend.Metrics.Render.{
  entry_lines, request_lines, duration_lines, request_header, duration_header, join_lines, Process,
  process_lines, indexer_lines, delivery_lines, metric_lines, render_metrics,
}

abbrev HasLabels : HttpKey → Type 0
HasLabels key = (metric_labels : List ℕ) × (key_labels key ≡ some metric_labels)

module _ {A : Type 0} where
  All-set_entry :
      (P : HttpKey → Type 0) (key : HttpKey) (value : A) (entries : List (HttpKey × A))
      → P key
      → All (λ e. P e.0) entries
      → All (λ e. P e.0) (set_entry key value entries)
  unfolding set_entry
  All-set_entry P key value [] p a = (p, tt)
  All-set_entry P key value (entry ∷ entries) p (q, a) =
      let rest = All-set_entry P key value entries p a in
      elim (Bool-cases (same_codes entry.0 key)) [ inl e ↦ rw e (p, a) | inr e ↦ rw e (q, rest) ]

  module _ (block : List ℕ → A → List (List ℕ)) where
    entry_lines-total :
        (entries : List (HttpKey × A))
        → All (λ e. HasLabels e.0) entries
        → (shown : List (List ℕ)) × (entry_lines block entries ≡ some shown)
    entry_lines-total [] a = ([], refl)
    entry_lines-total (entry ∷ entries) ((metric_labels, h), a) =
        let (rest, e) = entry_lines-total entries a in
        (block metric_labels entry.1 ++ rest, rw h (rw e refl))

    -- The lines of the entry of a key stand among the lines of a map.
    entry_lines-at :
        (key : HttpKey) (value : A) (metric_labels : List ℕ) (entries : List (HttpKey × A))
        → get_entry key entries ≡ some value
        → key_labels key ≡ some metric_labels
        → All (λ e. HasLabels e.0) entries
        → (before after : List (List ℕ)) × (entry_lines block entries
            ≡ some (before ++ (block metric_labels value ++ after)))
    unfolding get_entry
    entry_lines-at key value metric_labels [] g h a = absurd (ground arith)
    entry_lines-at key value metric_labels (entry ∷ entries) g h ((own, l), a) =
        let step = entry_lines-at key value metric_labels entries in
        elim (Bool-cases (same_codes entry.0 key)) [
          | inl e ↦
              let (rest, t) = entry_lines-total entries a in
              let here : entry.1 ≡ value = ground (arith, e, g) in
              let labelled : key_labels entry.0 ≡ some metric_labels =
                ap key_labels (same_codes→eq entry.0 key e) ∙ h in
              ([], rest, rw labelled (rw t (ap (λ v. some (block metric_labels v ++ rest)) here)))
          | inr e ↦
              let (before, after, t) = step (ground (arith, e, g)) h a in
              let first = block own entry.1 in
              (
                first ++ before,
                after,
                rw l (
                    rw t (
                      ap some
                        (sym (append_assoc first before (block metric_labels value ++ after))))),
              )
        ]

recorded-Labelled :
    (rs : List HttpRequest)
    → All IsClean rs
    → All (λ e. HasLabels e.0) (recorded rs).http_requests
      × All (λ e. HasLabels e.0) (recorded rs).http_duration
unfolding recorded record_http_request
recorded-Labelled [] c = (tt, tt)
recorded-Labelled (r ∷ rs) (h, c) =
    let before = recorded-Labelled rs c in
    let own : HasLabels (key_of r) = (
      labels r.method r.route r.status_code,
      key_labels-http_key r.method r.route r.status_code h.0 h.1,
    ) in
    let m = recorded rs in
    (
      All-set_entry HasLabels (key_of r) (or_zero (get_entry (key_of r) m.http_requests) + 1)
          m.http_requests own before.0,
      All-set_entry HasLabels (key_of r)
          (observe r.duration (or_fresh (get_entry (key_of r) m.http_duration))) m.http_duration own
          before.1,
    )

-- Lines within lines.
append-nested :
    (a b block c rest : List (List ℕ))
    → a ++ ((b ++ (block ++ c)) ++ rest) ≡ (a ++ b) ++ (block ++ (c ++ rest))
append-nested a b block c rest = simp append_assoc refl

append-nested_deep :
    (a b c d block e rest : List (List ℕ))
    → a ++ (b ++ (c ++ ((d ++ (block ++ e)) ++ rest)))
      ≡ (a ++ (b ++ (c ++ d))) ++ (block ++ (e ++ rest))
append-nested_deep a b c d block e rest = simp append_assoc refl

-- The text has the lines somewhere.
abbrev pub Shows : Option (List ℕ) → List (List ℕ) → Type 0
Shows shown block =
    (before after : List (List ℕ)) × (shown
      ≡ some (join_lines (before ++ (block ++ after)) ++ 10 ∷ []))

-- After requests without a NUL in their methods and routes, the text is produced, and for the method,
-- route and status of each recorded request it has the line that counts the requests with this method,
-- route and status, and the fourteen lines of their histogram: for each bound the number of these
-- requests that took no longer, their number, the sum of their durations, and their number again; a
-- quote of the route stands behind a backslash.
pub render_metrics-Shows :
    (seconds : ℕ → List ℕ) (p : Process) (m : Metrics) (rs : List HttpRequest)
    (method route : List ℕ) (status_code : ℕ)
    → any is_nul method ≡ false
    → any is_nul route ≡ false
    → All IsClean rs
    → any (same_request method route status_code) rs ≡ true
    → Shows (render_metrics seconds p m (recorded rs)) (count_lines method route status_code rs)
      × Shows
          (render_metrics seconds p m (recorded rs))
          (histogram_lines seconds method route status_code rs)
unfolding render_metrics metric_lines
render_metrics-Shows seconds p m rs method route status_code hm hr c h =
    let key = http_key method route status_code in
    let counted = recorded-Counted key rs in
    let labelled = recorded-Labelled rs c in
    let metric_labels = key_labels-http_key method route status_code hm hr in
    let seen : any (has_http_key key) rs ≡ true =
      any-same_request method route status_code rs hm hr c ∙ h in
    let same = count_where-same_request method route status_code rs hm hr c in
    let count = counted.0 ∙ rw seen (ap some same) in
    let histogram = counted.1 ∙ rw seen refl in
    let own = labels method route status_code in
    let counter = count_where (same_request method route status_code) rs in
    let m' = recorded rs in
    let (rs', rt) = entry_lines-total request_lines m'.http_requests labelled.0 in
    let (ds', dt) = entry_lines-total (duration_lines seconds) m'.http_duration labelled.1 in
    let (rb, ra, re) =
      entry_lines-at request_lines key counter own m'.http_requests count metric_labels
        labelled.0 in
    let (db, da, de) =
      entry_lines-at (duration_lines seconds) key (tally key rs) own m'.http_duration histogram
        metric_labels labelled.1 in
    let tail = process_lines p ++ (indexer_lines m ++ delivery_lines m) in
    let text = λ (lines : List (List ℕ)). some (join_lines lines ++ 10 ∷ []) in
    let after = duration_header ++ (ds' ++ tail) in
    let counting = request_lines-count_lines method route status_code rs in
    let timing = duration_lines-histogram_lines seconds method route status_code rs hm hr c in
    let shows = Shows (render_metrics seconds p m m') in
    (
      subst shows counting (
        request_header ++ rb,
        ra ++ after,
        rw re (
            rw dt (ap text (append-nested request_header rb (request_lines own counter) ra after))),
      ),
      subst shows timing (
        request_header ++ (rs' ++ (duration_header ++ db)),
        da ++ tail,
        rw rt (
            rw de (
              ap text (
                append-nested_deep request_header rs' duration_header db
                  (duration_lines seconds own (tally key rs)) da tail))),
      ),
    )
