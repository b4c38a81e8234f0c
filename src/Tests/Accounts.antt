-- ===== src/Tests/Accounts.antt =====
-- An account that fails to log in three times within a minute.
use kvm_manager.Base.{
  ℕ, ◌+◌, ◌-◌, ◌/◌, ◌≡◌, ◌≢◌, refl, ◌&&◌, none, some, List, [], ◌∷◌, arith, eq_iff, leb, ltb,
  length, All, if◌then◌else◌,
}
use mathlib.Core.Bool.{false≢true}
use kvm_manager.Base.Int.{pos}
use kvm_manager.Text.{trim_space, to_lower, equal_fold}
use kvm_manager.System.{SystemBaseConfig}
use kvm_manager.Login.{account_name, positive_or, delete_login_failures, ensure_login_allowed}
use kvm_manager.Login.Lockout.{failures, latest, IsRecent, ensure_login_allowed_after_failures}

abbrev pub base : SystemBaseConfig
base = record {
  resource_warning_threshold = pos 70;
  resource_critical_threshold = pos 85;
  resource_alert_consecutive_count = pos 3;
  agent_offline_failure_count = pos 3;
  alert_notification_timeout_seconds = pos 8;
  alert_notification_max_retry_count = pos 6;
  alert_notification_retry_base_seconds = pos 30;
  alert_notification_retry_max_minutes = pos 15;
  alert_notification_batch_size = pos 50;
  login_max_failures = pos 3;
  login_lockout_minutes = pos 2;
}

abbrev times : List ℕ
times = 1040 ∷ 1020 ∷ 1000 ∷ []

recent : All (IsRecent 1040) times
recent =
    ((omega arith, omega arith), ((omega arith, omega arith), ((omega arith, omega arith), tt)))

named : account_name "Bob" ≢ ""
unfolding account_name to_lower trim_space
named h = false≢true ((eq_iff (account_name "Bob") "").1 h)

ensure_login_allowed_after_failures_example :
    let rows = failures "Bob" times [] in
    ensure_login_allowed 1100 base "Bob" rows ≡ (
      if leb 3 (length times) && ltb 0 (latest times)
      then (if ltb 1100 (latest times + 120)
          then (some ((latest times + 120 - 1100 + 59) / 60), rows)
          else (none, (delete_login_failures (account_name "Bob") rows).1))
      else (none, rows))
unfolding positive_or equal_fold trim_space
ensure_login_allowed_after_failures_example =
    ensure_login_allowed_after_failures base "Bob" 1040 1100 times [] named refl recent refl
