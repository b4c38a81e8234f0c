-- ===== src/Alert/Samples.antt =====
-- The counters of consecutive samples above a limit: alertCounts and recordThresholdAlertSample of
-- backend/internal/service/realtime/service.go. The mutex alertMu makes each call one step.
use kvm_manager.Base.{ℕ, ◌+◌, String, Bool, Option, none, some, if◌then◌else◌}
use kvm_manager.Text.{◌<>◌}
use kvm_manager.Dict.{Dict, get, put, remove}

unfoldable pub counter_key : String → String → String → String
counter_key source_type source_id title = source_type <> "|" <> source_id <> "|" <> title

-- A map entry as Go reads it: zero for a missing key.
abbrev pub or_zero : Option ℕ → ℕ
or_zero none = 0
or_zero (some n) = n

unfoldable pub record_threshold_alert_sample : String → String → String → Bool → Dict ℕ → ℕ × Dict ℕ
record_threshold_alert_sample source_type source_id title exceeded counts =
    let key = counter_key source_type source_id title in
    let count = or_zero (get key counts) + 1 in
    if exceeded then (count, put key count counts) else (0, remove key counts)
