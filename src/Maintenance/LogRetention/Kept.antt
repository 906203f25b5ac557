-- ===== src/Maintenance/LogRetention/Kept.antt =====
-- What a pruning keeps: every dead letter that is not resolved, and every row that is not old.
use streamgive_backend.Prelude.{
  ℕ, ◌+◌, ◌*◌, ◌≤◌, ◌≡◌, refl, sym, ap, ◌∙◌, leb, not, Bool, true, false, ◌||◌, Option, none, some,
  List, [], ◌∷◌, ℤ, ltb, length, select, count_where, delete_where, All, arith, Bool-cases, inl,
  inr, if◌then◌else◌,
}
use streamgive_backend.Db.{DeadLetter, NotificationLog}
use streamgive_backend.Maintenance.LogRetention.{
  Logs, day_ms, retention_days, is_old, is_resolved_old, prune_old_logs,
}

abbrev is_open : DeadLetter → Bool
is_open row = elim row.resolved_at [ none ↦ true | some at ↦ false ]

open-delete :
    (now kept_ms : ℕ) (rows : List DeadLetter)
    → select is_open (delete_where (is_resolved_old now kept_ms) rows) ≡ select is_open rows
open-delete now kept_ms [] = refl
open-delete now kept_ms (row ∷ rows) = ground (arith, open-delete now kept_ms rows)

count-delete {ℓ} :
    {A : Type ℓ} (p : A → Bool) (xs : List A)
    → count_where p xs + length (delete_where p xs) ≡ length xs
count-delete p [] = omega arith
count-delete p (x ∷ xs) = ground (arith, count-delete p xs)

recent-delete :
    (now kept_ms : ℕ) (logs : List NotificationLog)
    → All (λ log. now ≤ log.created_at + kept_ms) (delete_where (is_old now kept_ms) logs)
recent-delete now kept_ms [] = tt
recent-delete now kept_ms (log ∷ logs) =
    let rest = recent-delete now kept_ms logs in
    elim (Bool-cases (is_old now kept_ms log)) [
      | inl e ↦ rw e rest
      | inr e ↦ rw e ((ground arith, rest))
    ]

-- Whichever deletion fails, and however the retention is configured, every dead letter that is not
-- resolved is kept, in its order.
prune_old_logs-open :
    (notifications_fail dead_letters_fail : Bool) (configured : Option ℤ) (now : ℕ) (logs : Logs)
    → select is_open
        (prune_old_logs notifications_fail dead_letters_fail configured now logs).1.dead_letters
      ≡ select is_open logs.dead_letters
unfolding prune_old_logs
prune_old_logs-open n d configured now logs =
    let kept_ms = retention_days configured * day_ms in
    elim (Bool-cases (ltb (now + 8640000000000000) kept_ms || d)) [
      | inl e ↦ rw e refl
      | inr e ↦ rw e (open-delete now kept_ms logs.dead_letters)
    ]

-- The numbers reported, and what is left of the notifications.
abbrev Counted : ℕ → ℕ → Logs → Option (ℕ × ℕ) × Logs → Type 0
Counted now kept_ms logs (some (notifications, dead_letters), after) =
    (notifications + length after.notifications ≡ length logs.notifications)
    × (dead_letters + length after.dead_letters ≡ length logs.dead_letters)
    × All (λ log. now ≤ log.created_at + kept_ms) after.notifications
Counted now kept_ms logs (none, after) = Unit {0}

-- A pruning that returns has reported as many rows as each table has lost, and keeps no notification
-- that is older than the retention.
prune_old_logs-Counted :
    (notifications_fail dead_letters_fail : Bool) (configured : Option ℤ) (now : ℕ) (logs : Logs)
    → Counted now
        (retention_days configured * day_ms)
        logs
        (prune_old_logs notifications_fail dead_letters_fail configured now logs)
unfolding prune_old_logs
prune_old_logs-Counted n d configured now logs =
    pruned (ltb (now + 8640000000000000) kept || n) (ltb (now + 8640000000000000) kept || d)
  where
    kept : ℕ
    kept = retention_days configured * day_ms

    pruned :
        (x y : Bool)
        → Counted now kept logs (
          if x || y
              then none
              else some (
                count_where (is_old now kept) logs.notifications,
                count_where (is_resolved_old now kept) logs.dead_letters,
              ),
          record {
            notifications =
                if x then logs.notifications else delete_where (is_old now kept) logs.notifications;
            dead_letters =
                if y
                then logs.dead_letters
                else delete_where (is_resolved_old now kept) logs.dead_letters;
          },
        )
    pruned true y = tt
    pruned false true = tt
    pruned false false = (
      count-delete (is_old now kept) logs.notifications,
      count-delete (is_resolved_old now kept) logs.dead_letters,
      recent-delete now kept logs.notifications,
    )

-- Not older than the retention.
abbrev pub is_recent : ℕ → ℕ → NotificationLog → Bool
is_recent now kept_ms log = leb now (log.created_at + kept_ms)

-- Not resolved, or resolved not longer ago than the retention.
abbrev pub is_needed : ℕ → ℕ → DeadLetter → Bool
is_needed now kept_ms row = elim row.resolved_at [ none ↦ true | some at ↦ leb now (at + kept_ms) ]

delete_where-is_old :
    (now kept_ms : ℕ) (logs : List NotificationLog)
    → delete_where (is_old now kept_ms) logs ≡ select (is_recent now kept_ms) logs
delete_where-is_old now kept_ms [] = refl
delete_where-is_old now kept_ms (log ∷ logs) =
    let rest = delete_where-is_old now kept_ms logs in
    elim (Bool-cases (is_old now kept_ms log)) [
      | inl e ↦
          let gone : is_recent now kept_ms log ≡ false = ground (arith, e) in rw e (rw gone rest)
      | inr e ↦
          let kept : is_recent now kept_ms log ≡ true = ground (arith, e) in
          rw e (rw kept (ap (λ l. log ∷ l) rest))
    ]

is_needed-not :
    (now kept_ms : ℕ) (row : DeadLetter)
    → is_needed now kept_ms row ≡ not (is_resolved_old now kept_ms row)
is_needed-not now kept_ms row = ground arith

delete_where-is_resolved_old :
    (now kept_ms : ℕ) (rows : List DeadLetter)
    → delete_where (is_resolved_old now kept_ms) rows ≡ select (is_needed now kept_ms) rows
delete_where-is_resolved_old now kept_ms [] = refl
delete_where-is_resolved_old now kept_ms (row ∷ rows) =
    let rest = delete_where-is_resolved_old now kept_ms rows in
    let needed = is_needed-not now kept_ms row in
    elim (Bool-cases (is_resolved_old now kept_ms row)) [
      | inl e ↦ rw e (rw (needed ∙ ap not e) rest)
      | inr e ↦ rw e (rw (needed ∙ ap not e) (ap (λ l. row ∷ l) rest))
    ]

-- When neither deletion fails and the cutoff is a valid date, the pruning returns: what is left are
-- exactly the notifications that are not older than the retention, and the dead letters that are not
-- resolved or not resolved longer ago than it, in their order; and the numbers that are reported are
-- those of the rows that the tables have lost.
pub prune_old_logs-Pruned :
    (configured : Option ℤ) (now : ℕ) (logs : Logs)
    → retention_days configured * day_ms ≤ now + 8640000000000000
    → let kept_ms = retention_days configured * day_ms in
      let notifications = select (is_recent now kept_ms) logs.notifications in
      let dead_letters = select (is_needed now kept_ms) logs.dead_letters in
      (n : ℕ) × (d : ℕ) × (prune_old_logs false false configured now logs
        ≡ (some (n, d), record { notifications = notifications; dead_letters = dead_letters }))
      × (n + length notifications ≡ length logs.notifications)
      × (d + length dead_letters ≡ length logs.dead_letters)
unfolding prune_old_logs
prune_old_logs-Pruned configured now logs valid =
    let kept_ms = retention_days configured * day_ms in
    let n = count_where (is_old now kept_ms) logs.notifications in
    let d = count_where (is_resolved_old now kept_ms) logs.dead_letters in
    let left = delete_where-is_old now kept_ms logs.notifications in
    let left_dead = delete_where-is_resolved_old now kept_ms logs.dead_letters in
    let date : ltb (now + 8640000000000000) kept_ms ≡ false = ground (arith, valid) in
    (
      n,
      d,
      rw date (λ i. (some (n, d), record { notifications = left i; dead_letters = left_dead i })),
      ap (λ l. n + length l) (sym left) ∙ count-delete (is_old now kept_ms) logs.notifications,
      ap (λ l. d + length l) (sym left_dead)
          ∙ count-delete (is_resolved_old now kept_ms) logs.dead_letters,
    )
