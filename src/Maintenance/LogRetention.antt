-- ===== src/Maintenance/LogRetention.antt =====
-- src/maintenance/logRetention.ts: deleting old log rows. The daily timer is not modelled.
pub mod Kept
use streamgive_backend.Prelude.{
  ℕ, zero, suc, ◌+◌, ◌-◌, ◌*◌, String, Bool, true, false, ◌||◌, Option, none, some, List, ℤ, pos,
  negsuc, ltb, count_where, delete_where, if◌then◌else◌,
}
use streamgive_backend.Db.{DeadLetter, NotificationLog}

-- The two tables that a pruning deletes from.
pub record Logs : Type 0 where
  pub notifications : List NotificationLog
  pub dead_letters : List DeadLetter

abbrev pub day_ms : ℕ
day_ms = 86400000

abbrev default_retention_days : ℕ
default_retention_days = 90

-- The argument is what `Number` reads in LOG_RETENTION_DAYS, if it is a safe integer.
unfoldable pub retention_days : Option ℤ → ℕ
retention_days none = default_retention_days
retention_days (some (pos zero)) = default_retention_days
retention_days (some (pos (suc n))) = suc n
retention_days (some (negsuc n)) = default_retention_days

-- `createdAt: { lt: cutoff }`, with the retention on the other side.
abbrev pub is_old : ℕ → ℕ → NotificationLog → Bool
is_old now kept_ms log = ltb (log.created_at + kept_ms) now

-- `resolvedAt: { lt: cutoff }`: a null is not less.
abbrev pub is_resolved_old : ℕ → ℕ → DeadLetter → Bool
is_resolved_old now kept_ms row = elim row.resolved_at [
  | none ↦ false
  | some at ↦ ltb (at + kept_ms) now
]

-- A `Date` of more than 8.64e15 milliseconds before the epoch is invalid, and Prisma rejects it.
abbrev is_invalid_cutoff : ℕ → ℕ → Bool
is_invalid_cutoff now kept_ms = ltb (now + 8640000000000000) kept_ms

-- Both deletions are started, and the pruning throws (`none`) if one of them fails.
unfoldable pub prune_old_logs :
    (notifications_fail dead_letters_fail : Bool) → Option ℤ → ℕ → Logs → Option (ℕ × ℕ) × Logs
unfolding retention_days
prune_old_logs notifications_fail dead_letters_fail configured now logs =
    let kept_ms = retention_days configured * day_ms in
    let old = is_old now kept_ms in
    let resolved_old = is_resolved_old now kept_ms in
    let invalid = is_invalid_cutoff now kept_ms in
    let keep_notifications = invalid || notifications_fail in
    let keep_dead_letters = invalid || dead_letters_fail in
    (
      if keep_notifications || keep_dead_letters
          then none
          else some
              (count_where old logs.notifications, count_where resolved_old logs.dead_letters),
      record {
        notifications =
            if keep_notifications then logs.notifications else delete_where old logs.notifications;
        dead_letters =
            if keep_dead_letters
            then logs.dead_letters
            else delete_where resolved_old logs.dead_letters;
      },
    )
