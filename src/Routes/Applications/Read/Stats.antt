-- ===== src/Routes/Applications/Read/Stats.antt =====
-- The counts of `GET /ngo-applications/stats`.
use streamgive_backend.Prelude.{
  ℕ, ◌+◌, ◌≡◌, refl, sym, ap, ◌∙◌, Bool, true, false, List, [], ◌∷◌, count_where, length, arith,
  if◌then◌else◌, Bool-cases, inl, inr,
}
use streamgive_backend.Db.{NgoApplication, ApplicationStatus, pending, approved, rejected}
use streamgive_backend.Routes.Applications.Read.{
  status_eq, has_status, count_status, group_by_status, Counts, set_count, set_counts, stats_body,
}

abbrev count_of : ApplicationStatus → Counts → ℕ
count_of pending counts = counts.pending
count_of approved counts = counts.approved
count_of rejected counts = counts.rejected

-- The first group of a status, and its count or another number.
abbrev count_in : ℕ → ApplicationStatus → List (ApplicationStatus × ℕ) → ℕ
count_in other status [] = other
count_in other status ((seen, n) ∷ groups) =
    if status_eq seen status then n else count_in other status groups

abbrev is_in : ApplicationStatus → List (ApplicationStatus × ℕ) → Bool
is_in status [] = false
is_in status ((seen, n) ∷ groups) = if status_eq seen status then true else is_in status groups

abbrev Unique : List (ApplicationStatus × ℕ) → Type 0
Unique [] = Unit
Unique ((seen, n) ∷ groups) = (is_in seen groups ≡ false) × Unique groups

status_eq_refl : (s : ApplicationStatus) → status_eq s s ≡ true
status_eq_refl pending = refl
status_eq_refl approved = refl
status_eq_refl rejected = refl

status_eq_sound : (s t : ApplicationStatus) → status_eq s t ≡ true → s ≡ t
status_eq_sound pending pending h = refl
status_eq_sound approved approved h = refl
status_eq_sound rejected rejected h = refl
status_eq_sound pending approved h = ground (arith, h)
status_eq_sound pending rejected h = ground (arith, h)
status_eq_sound approved pending h = ground (arith, h)
status_eq_sound approved rejected h = ground (arith, h)
status_eq_sound rejected pending h = ground (arith, h)
status_eq_sound rejected approved h = ground (arith, h)

status_eq_comm : (s t : ApplicationStatus) → status_eq s t ≡ status_eq t s
status_eq_comm pending pending = refl
status_eq_comm pending approved = refl
status_eq_comm pending rejected = refl
status_eq_comm approved pending = refl
status_eq_comm approved approved = refl
status_eq_comm approved rejected = refl
status_eq_comm rejected pending = refl
status_eq_comm rejected approved = refl
status_eq_comm rejected rejected = refl

count_of-set_count :
    (t s : ApplicationStatus) (n : ℕ) (counts : Counts)
    → count_of t (set_count s n counts) ≡ (if status_eq s t then n else count_of t counts)
count_of-set_count pending pending n counts = refl
count_of-set_count pending approved n counts = refl
count_of-set_count pending rejected n counts = refl
count_of-set_count approved pending n counts = refl
count_of-set_count approved approved n counts = refl
count_of-set_count approved rejected n counts = refl
count_of-set_count rejected pending n counts = refl
count_of-set_count rejected approved n counts = refl
count_of-set_count rejected rejected n counts = refl

count_in-absent :
    (other : ℕ) (t : ApplicationStatus) (groups : List (ApplicationStatus × ℕ))
    → is_in t groups ≡ false
    → count_in other t groups ≡ other
count_in-absent other t [] h = refl
count_in-absent other t ((seen, n) ∷ groups) h = ground (arith, count_in-absent other t groups, h)

-- Where no status has two groups, the last write to a count is the only one.
count_of-set_counts :
    (t : ApplicationStatus) (groups : List (ApplicationStatus × ℕ)) (counts : Counts)
    → Unique groups
    → count_of t (set_counts groups counts) ≡ count_in (count_of t counts) t groups
unfolding set_counts
count_of-set_counts t [] counts u = refl
count_of-set_counts t ((seen, n) ∷ groups) counts u =
    let rest = count_of-set_counts t groups (set_count seen n counts) u.1 in
    let now = count_of-set_count t seen n counts in
    elim (Bool-cases (status_eq seen t)) [
      | inl e ↦
          let gone = ap (λ s. is_in s groups) (sym (status_eq_sound seen t e)) ∙ u.0 in
          let left = count_in-absent (count_of t (set_count seen n counts)) t groups gone in
          ground (arith, rest, left, now, e)
      | inr e ↦ ground (arith, rest, now, e)
    ]

is_in-count_status :
    (t s : ApplicationStatus) (groups : List (ApplicationStatus × ℕ))
    → is_in t (count_status s groups) ≡ (if status_eq s t then true else is_in t groups)
unfolding count_status
is_in-count_status t s [] = refl
is_in-count_status t s ((seen, n) ∷ groups) =
    let rest = is_in-count_status t s groups in
    elim (Bool-cases (status_eq seen s)) [
      | inl e ↦
          let same = ap (λ x. status_eq x t) (status_eq_sound seen s e) in ground (arith, same, e)
      | inr e ↦ ground (arith, rest, e)
    ]

Unique-count_status :
    (s : ApplicationStatus) (groups : List (ApplicationStatus × ℕ))
    → Unique groups
    → Unique (count_status s groups)
unfolding count_status
Unique-count_status s [] u = (refl, tt)
Unique-count_status s ((seen, n) ∷ groups) u =
    let absent = is_in-count_status seen s groups in
    let rest = Unique-count_status s groups u.1 in
    elim (Bool-cases (status_eq seen s)) [
      | inl e ↦ rw e u
      | inr e ↦ rw e (ground (arith, absent, u.0, e, status_eq_comm s seen), rest)
    ]

count_in-count_status :
    (t s : ApplicationStatus) (groups : List (ApplicationStatus × ℕ))
    → count_in 0 t (count_status s groups) ≡ (if status_eq s t then 1 else 0) + count_in 0 t groups
unfolding count_status
count_in-count_status t s [] = ground arith
count_in-count_status t s ((seen, n) ∷ groups) =
    let rest = count_in-count_status t s groups in
    elim (Bool-cases (status_eq seen s)) [
      | inl e ↦
          let same = ap (λ x. status_eq x t) (status_eq_sound seen s e) in ground (arith, same, e)
      | inr e ↦ ground (arith, rest, e)
    ]

Unique-group_by_status : (rows : List NgoApplication) → Unique (group_by_status rows)
unfolding group_by_status
Unique-group_by_status [] = tt
Unique-group_by_status (row ∷ rows) =
    Unique-count_status row.status (group_by_status rows) (Unique-group_by_status rows)

count_in-group_by_status :
    (t : ApplicationStatus) (rows : List NgoApplication)
    → count_in 0 t (group_by_status rows) ≡ count_where (has_status t) rows
unfolding group_by_status
count_in-group_by_status t [] = refl
count_in-group_by_status t (row ∷ rows) =
    count_in-count_status t row.status (group_by_status rows)
    ∙ ap (λ n. (if status_eq row.status t then 1 else 0) + n) (count_in-group_by_status t rows)

one_status :
    (s : ApplicationStatus)
    → (if status_eq s pending then 1 else 0)
        + (if status_eq s approved then 1 else 0)
        + (if status_eq s rejected then 1 else 0)
      ≡ 1
one_status pending = refl
one_status approved = refl
one_status rejected = refl

all_statuses :
    (rows : List NgoApplication)
    → count_where (has_status pending) rows
        + count_where (has_status approved) rows
        + count_where (has_status rejected) rows
      ≡ length rows
all_statuses [] = refl
all_statuses (row ∷ rows) = omega (arith, one_status row.status, all_statuses rows)

counted :
    (t : ApplicationStatus) (rows : List NgoApplication)
    → count_of t (stats_body (group_by_status rows)).counts ≡ count_where (has_status t) rows
unfolding stats_body
counted pending rows =
    count_of-set_counts pending (group_by_status rows) _ (Unique-group_by_status rows)
    ∙ count_in-group_by_status pending rows
counted approved rows =
    count_of-set_counts approved (group_by_status rows) _ (Unique-group_by_status rows)
    ∙ count_in-group_by_status approved rows
counted rejected rows =
    count_of-set_counts rejected (group_by_status rows) _ (Unique-group_by_status rows)
    ∙ count_in-group_by_status rejected rows

-- The statistics, which the grouped counts of the database fill in, give for each status the number of
-- applications with that status, and as their total the number of all applications.
pub stats_body-counts :
    (rows : List NgoApplication)
    → ((stats_body (group_by_status rows)).counts.pending ≡ count_where (has_status pending) rows)
      × ((stats_body (group_by_status rows)).counts.approved
          ≡ count_where (has_status approved) rows)
      × ((stats_body (group_by_status rows)).counts.rejected
          ≡ count_where (has_status rejected) rows)
      × ((stats_body (group_by_status rows)).total ≡ length rows)
unfolding stats_body
stats_body-counts rows =
    let p = counted pending rows in
    let a = counted approved rows in
    let r = counted rejected rows in (p, a, r, omega (arith, p, a, r, all_statuses rows))
