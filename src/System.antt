-- ===== src/System.antt =====
-- The base configuration of the system that the services read:
-- backend/internal/domain/domain.go (SystemBaseConfig), its whole-number settings.
use kvm_manager.Base.Int.{ℤ}

pub record SystemBaseConfig : Type 0 where
  pub resource_warning_threshold : ℤ
  pub resource_critical_threshold : ℤ
  pub resource_alert_consecutive_count : ℤ
  pub agent_offline_failure_count : ℤ
  pub alert_notification_timeout_seconds : ℤ
  pub alert_notification_max_retry_count : ℤ
  pub alert_notification_retry_base_seconds : ℤ
  pub alert_notification_retry_max_minutes : ℤ
  pub alert_notification_batch_size : ℤ
  pub login_max_failures : ℤ
  pub login_lockout_minutes : ℤ
