-- ===== src/Alert/Retry.antt =====
-- When a failed notification is tried again: AlertNotificationRetryConfig and the functions on it in
-- backend/internal/repository/alert_notification_deliveries.go. Delays are in seconds.
pub mod Delays
use Prim.Native.Nat.{min}
use kvm_manager.Base.{
  ℕ, zero, suc, ◌+◌, ◌*◌, ◌^◌, ◌≤◌, ◌≡◌, String, Bool, true, false, Option, none, some, arith, ltb,
  leb, eqb, if◌then◌else◌, ◌||◌,
}
use kvm_manager.Base.Int.{ℤ, pos, negsuc, pos_part, ltb_ℤ, ◌≤ℤ◌}
use kvm_manager.Alert.Config.{clamp_config_int}
use kvm_manager.System.{SystemBaseConfig}

pub record AlertNotificationRetryConfig : Type 0 where
  pub max_retry_count : ℤ
  pub base_delay_seconds : ℤ
  pub max_delay_minutes : ℤ

abbrev within : ℤ → ℕ → ℕ → ℕ → ℤ
within value low high fallback =
    if ltb_ℤ value (pos low) || ltb_ℤ (pos high) value then pos fallback else value

-- The last of the four tests: a longest delay that is below the base delay becomes 15 minutes.
abbrev fit_max : ℤ → ℤ → ℤ
fit_max base_seconds max_minutes =
    if ltb (pos_part max_minutes * 60) (pos_part base_seconds) then pos 15 else max_minutes

unfoldable pub normalize_alert_notification_retry_config :
    AlertNotificationRetryConfig → AlertNotificationRetryConfig
normalize_alert_notification_retry_config config =
    let base = within config.base_delay_seconds 10 300 30 in
    record {
      max_retry_count = within config.max_retry_count 0 10 6;
      base_delay_seconds = base;
      max_delay_minutes = fit_max base (within config.max_delay_minutes 1 120 15);
    }

-- The exponent of the delay.
abbrev pub exponent : ℤ → ℕ
exponent retry_count =
    if ltb_ℤ retry_count (pos 0)
    then 0
    else if ltb_ℤ (pos 8) retry_count
    then 8
    else pos_part retry_count

-- The shorter of two delays, by Go's test.
abbrev capped : ℕ → ℕ → ℕ
capped delay max_delay = if ltb max_delay delay then max_delay else delay

-- AlertNotificationRetryDelayWithConfig
unfoldable pub alert_notification_retry_delay_with_config : ℤ → AlertNotificationRetryConfig → ℕ
alert_notification_retry_delay_with_config retry_count config =
    let c = normalize_alert_notification_retry_config config in
    capped (2 ^ exponent retry_count * pos_part c.base_delay_seconds)
      (pos_part c.max_delay_minutes * 60)

-- The delay that the UPDATE of MarkAlertNotificationDeliveryFailedWithConfig computes in SQL:
-- LEAST(max, (1 << LEAST(retry_count + 1, 8)) * base), over a configuration already normalised.
unfoldable pub sql_retry_delay : ℕ → AlertNotificationRetryConfig → ℕ
sql_retry_delay retry_count c =
    min (pos_part c.max_delay_minutes * 60)
      (2 ^ min (retry_count + 1) 8 * pos_part c.base_delay_seconds)

-- alertNotificationRuntimeConfig of backend/internal/service/notification/service.go: the timeout in
-- seconds, and the retry settings.
pub record AlertNotificationRuntimeConfig : Type 0 where
  pub timeout : ℕ
  pub retry : AlertNotificationRetryConfig

unfoldable pub alert_notification_runtime_config :
    Option SystemBaseConfig → AlertNotificationRuntimeConfig
unfolding clamp_config_int
alert_notification_runtime_config none = record {
  timeout = 8;
  retry = record {
    max_retry_count = pos 6;
    base_delay_seconds = pos 30;
    max_delay_minutes = pos 15;
  };
}
alert_notification_runtime_config (some base) = record {
  timeout = clamp_config_int base.alert_notification_timeout_seconds 3 60 8;
  retry = record {
    max_retry_count = pos (clamp_config_int base.alert_notification_max_retry_count 0 10 6);
    base_delay_seconds =
        pos (clamp_config_int base.alert_notification_retry_base_seconds 10 300 30);
    max_delay_minutes = pos (clamp_config_int base.alert_notification_retry_max_minutes 1 120 15);
  };
}

-- The settings that a normalised configuration has.
pub record IsNormal (c : AlertNotificationRetryConfig) : Type 0 where
  pub retries_low : pos 0 ≤ℤ c.max_retry_count
  pub retries_high : c.max_retry_count ≤ℤ pos 10
  pub base_low : pos 10 ≤ℤ c.base_delay_seconds
  pub base_high : c.base_delay_seconds ≤ℤ pos 300
  pub longest_low : pos 1 ≤ℤ c.max_delay_minutes
  pub longest_high : c.max_delay_minutes ≤ℤ pos 120
  pub room : pos_part c.base_delay_seconds ≤ pos_part c.max_delay_minutes * 60
