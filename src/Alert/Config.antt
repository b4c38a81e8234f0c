-- ===== src/Alert/Config.antt =====
-- The limits that the alert code works with: clampConfigInt and loadAlertRuntimeConfig of
-- backend/internal/service/realtime/service.go.
use kvm_manager.Base.{ℕ, ◌≤◌, Option, none, some, arith, ◌||◌, if◌then◌else◌}
use kvm_manager.Base.Int.{ℤ, pos, pos_part, ltb_ℤ}
use kvm_manager.System.{SystemBaseConfig}

pub record AlertRuntimeConfig : Type 0 where
  pub resource_limit : ℕ
  pub consecutive_limit : ℕ
  pub offline_failure_limit : ℕ
  pub notification_batch_size : ℕ

unfoldable pub clamp_config_int : ℤ → ℕ → ℕ → ℕ → ℕ
clamp_config_int value min max fallback =
    if ltb_ℤ value (pos min) || ltb_ℤ (pos max) value then fallback else pos_part value

-- `none` stands for a failed read of the configuration.
unfoldable pub load_alert_runtime_config : Option SystemBaseConfig → AlertRuntimeConfig
unfolding clamp_config_int
load_alert_runtime_config none = record {
  resource_limit = 85;
  consecutive_limit = 3;
  offline_failure_limit = 3;
  notification_batch_size = 50;
}
load_alert_runtime_config (some base) = record {
  resource_limit = clamp_config_int base.resource_critical_threshold 1 100 85;
  consecutive_limit = clamp_config_int base.resource_alert_consecutive_count 1 20 3;
  offline_failure_limit = clamp_config_int base.agent_offline_failure_count 1 20 3;
  notification_batch_size = clamp_config_int base.alert_notification_batch_size 10 100 50;
}

pub clamp_config_int_bounds :
    (value : ℤ) (min max fallback : ℕ)
    → min ≤ fallback
    → fallback ≤ max
    → (min ≤ clamp_config_int value min max fallback)
      × (clamp_config_int value min max fallback ≤ max)
unfolding clamp_config_int
clamp_config_int_bounds value min max fallback h k = ground arith

pub record IsUsable (c : AlertRuntimeConfig) : Type 0 where
  pub resource_low : 1 ≤ c.resource_limit
  pub resource_high : c.resource_limit ≤ 100
  pub consecutive_low : 1 ≤ c.consecutive_limit
  pub consecutive_high : c.consecutive_limit ≤ 20
  pub offline_low : 1 ≤ c.offline_failure_limit
  pub offline_high : c.offline_failure_limit ≤ 20
  pub batch_low : 10 ≤ c.notification_batch_size
  pub batch_high : c.notification_batch_size ≤ 100

-- Whatever the stored settings are, or if they cannot be read, the limits in use lie within 1 to
-- 100 percent, 1 to 20 samples, 1 to 20 failures, and 10 to 100 notifications.
pub load_alert_runtime_config-IsUsable :
    (base : Option SystemBaseConfig) → IsUsable (load_alert_runtime_config base)
unfolding load_alert_runtime_config
load_alert_runtime_config-IsUsable none = omega arith
load_alert_runtime_config-IsUsable (some base) = ground arith
