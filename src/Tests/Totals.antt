-- ===== src/Tests/Totals.antt =====
-- The theorems on the token totals and on the log retention, at a few rows.
use streamgive_backend.Prelude.{
  ℕ, ◌≡◌, refl, String, Bool, true, false, none, some, List, [], ◌∷◌, pos, count_where, ◌*◌, ◌≤◌,
  ◌+◌, select, length, arith,
}
use streamgive_backend.Prelude.Int.{◌+ℤ◌}
use streamgive_backend.Db.{active, cancelled, NotificationLog}
use streamgive_backend.Routes.TokenTotals.{StreamForTokenTotals, committed_totals_by_token}
use streamgive_backend.Routes.TokenTotals.Sums.{
  has_token, sum_of, sum_of_streams, committed_totals_by_token-sums,
}
use streamgive_backend.Maintenance.LogRetention.{Logs, day_ms, retention_days, prune_old_logs}
use streamgive_backend.Maintenance.LogRetention.Kept.{is_recent, is_needed, prune_old_logs-Pruned}
use streamgive_backend.Tests.Fixtures.{dead_letter}

abbrev streams : List StreamForTokenTotals
streams =
    record { token_address = "USDC"; balance = pos 10; withdrawn = pos 5; status = active }
    ∷ record { token_address = "XLM"; balance = pos 7; withdrawn = pos 0; status = active }
    ∷ record { token_address = "USDC"; balance = pos 0; withdrawn = pos 4; status = cancelled }
    ∷ []

abbrev in_place : String → String → Bool
in_place a b = true

committed_totals_by_token_run :
    committed_totals_by_token in_place streams
    ≡ record { token_address = "USDC"; amount = pos 19 }
      ∷ record { token_address = "XLM"; amount = pos 7 }
      ∷ []
unfolding committed_totals_by_token ◌+ℤ◌
committed_totals_by_token_run = refl

committed_totals_by_token-sums_example :
    let totals = committed_totals_by_token in_place streams in
    (count_where (has_token "USDC") totals ≡ 1)
    × (sum_of "USDC" totals ≡ sum_of_streams "USDC" streams)
committed_totals_by_token-sums_example = committed_totals_by_token-sums in_place streams "USDC"

abbrev log : NotificationLog
log = record {
  id = "l1";
  event_id = none;
  event_type = "stream_created";
  channel = "webhook";
  success = true;
  error = none;
  created_at = 5;
}

abbrev logs : Logs
logs = record {
  notifications = log ∷ [];
  dead_letters = dead_letter ∷ record dead_letter { resolved_at = some 4 } ∷ [];
}

abbrev now : ℕ
now = 20000000000

prune_old_logs_run :
    prune_old_logs false false none now logs
    ≡ (some (1, 1), record { notifications = []; dead_letters = dead_letter ∷ [] })
unfolding prune_old_logs
prune_old_logs_run = refl

valid : retention_days none * day_ms ≤ now + 8640000000000000
unfolding retention_days
valid = omega arith

prune_old_logs-Pruned_example :
    let kept_ms = retention_days none * day_ms in
    let notifications = select (is_recent now kept_ms) logs.notifications in
    let dead_letters = select (is_needed now kept_ms) logs.dead_letters in
    (n : ℕ) × (d : ℕ) × (prune_old_logs false false none now logs
      ≡ (some (n, d), record { notifications = notifications; dead_letters = dead_letters }))
    × (n + length notifications ≡ length logs.notifications)
    × (d + length dead_letters ≡ length logs.dead_letters)
prune_old_logs-Pruned_example = prune_old_logs-Pruned none now logs valid
