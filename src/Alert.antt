-- ===== src/Alert.antt =====
-- Alerts and their notifications: backend/internal/domain/domain.go (Alert) and
-- backend/internal/domain/notification.go, with the tables that
-- backend/internal/repository keeps them in. Row identifiers are counters in place of UUIDs, and
-- times are seconds.
pub mod Table
pub mod Config
pub mod Retry
pub mod Delivery
pub mod Samples
pub mod Evaluate
pub mod Notify
use kvm_manager.Base.{ℕ, String, Bool, Option, List}
use kvm_manager.Dict.{Dict}

-- A value of the JSON metadata.
pub data Value : Type 0 where
  text : String → Value
  number : ℕ → Value

pub record Alert : Type 0 where
  pub id : ℕ
  pub level : String
  pub status : String
  pub source_type : String
  pub source_id : String
  pub title : String
  pub message : String
  pub metadata : Dict Value
  pub first_seen_at : ℕ
  pub last_seen_at : ℕ
  pub resolved_at : Option ℕ
  pub notification_sent_at : Option ℕ
  pub read_at : Option ℕ
  pub dismissed_at : Option ℕ
  pub created_at : ℕ
  pub updated_at : ℕ

-- A notification medium; `send_recovery` is the flag inside its JSON configuration.
pub record NotificationChannel : Type 0 where
  pub id : String
  pub enabled : Bool
  pub send_recovery : Bool

pub record AlertNotificationDelivery : Type 0 where
  pub id : ℕ
  pub alert_id : ℕ
  pub event_type : String
  pub channel_id : String
  pub status : String
  pub error : String
  pub retry_count : ℕ
  pub next_retry_at : ℕ
  pub last_attempt_at : Option ℕ
  pub sent_at : Option ℕ
  pub created_at : ℕ
  pub updated_at : ℕ

-- The tables alerts, alert_notification_deliveries and notification_channels.
pub record Store : Type 0 where
  pub alerts : List Alert
  pub next_alert : ℕ
  pub deliveries : List AlertNotificationDelivery
  pub next_delivery : ℕ
  pub channels : List NotificationChannel
