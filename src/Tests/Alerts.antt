-- ===== src/Tests/Alerts.antt =====
-- Alerts, their deliveries and the waiting times, at a host called "h1".
use mathlib.Core.Bool.{false≢true}
use kvm_manager.Base.{
  ℕ, ◌≤◌, ◌*◌, ◌≡◌, ◌≢◌, refl, Bool, true, false, ◌&&◌, none, List, [], ◌∷◌, arith, eq_iff, leb,
  all, take, length,
}
use kvm_manager.Base.Int.{pos, pos_part}
use kvm_manager.Dict.{Dict, get}
use kvm_manager.Agents.{Agent}
use kvm_manager.Alert.{Value, Alert, NotificationChannel, AlertNotificationDelivery, Store}
use kvm_manager.Alert.Config.{
  AlertRuntimeConfig, IsUsable, load_alert_runtime_config, load_alert_runtime_config-IsUsable,
}
use kvm_manager.Alert.Retry.{
  AlertNotificationRetryConfig, normalize_alert_notification_retry_config, sql_retry_delay,
  alert_notification_retry_delay_with_config,
}
use kvm_manager.Alert.Retry.Delays.{sql_retry_delay_lem, retry_delay_bounds, retry_delay_mono}
use kvm_manager.Alert.Table.Activity.{has_active}
use kvm_manager.Alert.Delivery.{is_wanted, ensure_alert_notification_deliveries}
use kvm_manager.Alert.Delivery.Lifecycle.{
  has_failed, has_pending, fail_times, fail_times_status, ensure_revives,
}
use kvm_manager.Alert.Samples.{counter_key}
use kvm_manager.Alert.Evaluate.{
  Host, VirtualMachine, Service, host_source_id, host_title, vm_source_id, vm_title,
  evaluate_sample, evaluate_runtime_alerts,
}
use kvm_manager.Alert.Evaluate.Streak.{
  observe_host, observe_vm, host_alert_after_streak, vm_alert_after_streak, evaluate_sample_other,
}
use kvm_manager.Alert.Evaluate.Unique.{IsUnique, evaluate_runtime_alerts-IsUnique}

abbrev pub agent : Agent
agent = record {
  id = "a1";
  name = "h1";
  endpoint = "https://10.0.0.1";
  tls_insecure = false;
  status = "online";
  version = "";
  capabilities = "[]";
  last_heartbeat_at = none;
  last_error = "";
  token_hash = "";
  token_ciphertext = "";
  failure_count = 0;
  last_sync_started_at = none;
  last_sync_finished_at = none;
  created_at = 0;
  updated_at = 0;
}

abbrev pub machine : VirtualMachine
machine = record {
  id = "a1:u1";
  name = "web";
  description = "";
  primary_ip = "";
  status = "error";
  cpu_usage = 97;
  cpu_usage_available = true;
  memory_usage = 10;
  memory_usage_available = true;
  disk_usage = 0;
  disk_usage_available = false;
}

abbrev mail : NotificationChannel
mail = record { id = "email"; enabled = true; send_recovery = true }

abbrev pub no_alerts : Service
no_alerts = record {
  store = record {
    alerts = [];
    next_alert = 0;
    deliveries = [];
    next_delivery = 0;
    channels = mail ∷ [];
  };
  alert_counts = [];
}

abbrev pub config : AlertRuntimeConfig
config = record {
  resource_limit = 85;
  consecutive_limit = 2;
  offline_failure_limit = 3;
  notification_batch_size = 50;
}

abbrev pub retry : AlertNotificationRetryConfig
retry = record { max_retry_count = pos 2; base_delay_seconds = pos 30; max_delay_minutes = pos 15 }

abbrev samples : List (ℕ × ℕ)
samples = (120, 91) ∷ (60, 88) ∷ (0, 12) ∷ []

abbrev measured : List (ℕ × ℕ × Bool)
measured = (120, 91, false) ∷ (60, 95, true) ∷ (0, 93, true) ∷ []

host_alert_after_streak_example :
    has_active "host"
      (host_source_id agent "cpu")
      (host_title "CPU")
      (observe_host agent "CPU" "cpu" 85 2 samples no_alerts).store
    ≡ (leb 2 (length samples) && all (λ x. leb 85 x.1) (take 2 samples))
unfolding get
host_alert_after_streak_example =
    host_alert_after_streak agent "CPU" "cpu" 85 2 (omega arith) samples no_alerts
      (record { uncounted = refl; inactive = refl })

vm_alert_after_streak_example :
    has_active "virtual_machine"
      (vm_source_id machine "cpu")
      (vm_title "CPU")
      (observe_vm agent machine "CPU" "cpu" 85 2 measured no_alerts).store
    ≡ (leb 2 (length measured) && all (λ x. x.2 && leb 85 x.1) (take 2 measured))
unfolding get
vm_alert_after_streak_example =
    vm_alert_after_streak agent machine "CPU" "cpu" 85 2 (omega arith) measured no_alerts
      (record { uncounted = refl; inactive = refl })

-- Two samples over the limit raise the alert; a sample that could not be measured ends it.
raised_and_ended :
    (has_active "host"
        (host_source_id agent "cpu")
        (host_title "CPU")
        (observe_host agent "CPU" "cpu" 85 2 samples no_alerts).store
      ≡ true)
    × (has_active "virtual_machine"
          (vm_source_id machine "cpu")
          (vm_title "CPU")
          (observe_vm agent machine "CPU" "cpu" 85 2 measured no_alerts).store
        ≡ false)
raised_and_ended = (host_alert_after_streak_example, vm_alert_after_streak_example)

abbrev no_metadata : ℕ → Dict Value
no_metadata count = []

counters_differ : counter_key "host" "a1:cpu" "t" ≢ counter_key "host" "a1:memory" "t"
unfolding counter_key
counters_differ h =
    false≢true ((eq_iff (counter_key "host" "a1:cpu" "t") (counter_key "host" "a1:memory" "t")).1 h)

evaluate_sample_other_example :
    let s' = evaluate_sample 60 "host" "a1:cpu" "t" true 1 "m" no_metadata no_alerts in
    (get (counter_key "host" "a1:memory" "t") s'.alert_counts
      ≡ get (counter_key "host" "a1:memory" "t") no_alerts.alert_counts)
    × (has_active "host" "a1:memory" "t" s'.store
        ≡ has_active "host" "a1:memory" "t" no_alerts.store)
evaluate_sample_other_example =
    evaluate_sample_other "host" "a1:cpu" "t" "m" 1 60 true no_metadata no_alerts "host" "a1:memory"
      "t" refl counters_differ

no_alerts-IsUnique : IsUnique no_alerts.store.alerts
no_alerts-IsUnique source_type source_id title = omega arith

abbrev busy_host : Host
busy_host = record { cpu_usage = 99; memory_usage = 90; storage_usage = 10 }

evaluate_runtime_alerts-IsUnique_example :
    IsUnique
      (evaluate_runtime_alerts 60 config agent busy_host
        (machine ∷ machine ∷ [])
        no_alerts).store.alerts
evaluate_runtime_alerts-IsUnique_example =
    evaluate_runtime_alerts-IsUnique 60 config agent busy_host (machine ∷ machine ∷ []) no_alerts
      no_alerts-IsUnique

abbrev alert : Alert
alert = record {
  id = 7;
  level = "warning";
  status = "active";
  source_type = "host";
  source_id = "a1:cpu";
  title = "t";
  message = "m";
  metadata = [];
  first_seen_at = 0;
  last_seen_at = 0;
  resolved_at = none;
  notification_sent_at = none;
  read_at = none;
  dismissed_at = none;
  created_at = 0;
  updated_at = 0;
}

abbrev delivery : AlertNotificationDelivery
delivery = record {
  id = 3;
  alert_id = 7;
  event_type = "problem";
  channel_id = "email";
  status = "failed";
  error = "timeout";
  retry_count = 0;
  next_retry_at = 0;
  last_attempt_at = none;
  sent_at = none;
  created_at = 0;
  updated_at = 0;
}

abbrev given_up : Store
given_up = record {
  alerts = alert ∷ [];
  next_alert = 8;
  deliveries = delivery ∷ [];
  next_delivery = 4;
  channels = mail ∷ [];
}

fail_times_status_example :
    ((fail_times ((10, "timeout") ∷ (50, "timeout") ∷ []) retry delivery).status ≡ "failed")
    × ((fail_times ((10, "timeout") ∷ (50, "timeout") ∷ []) retry delivery).retry_count ≡ 2)
fail_times_status_example = fail_times_status 10 "timeout" ((50, "timeout") ∷ []) retry delivery

ensure_revives_example :
    let s' = ensure_alert_notification_deliveries 100 alert "problem" given_up in
    (has_failed 7 "problem" "email" s'.deliveries ≡ false)
    × (has_failed 7 "problem" "email" given_up.deliveries ≡ true
        → has_pending 7 "problem" "email" s'.deliveries ≡ true)
unfolding is_wanted
ensure_revives_example = ensure_revives 100 alert "problem" "email" given_up refl

sql_retry_delay_lem_example :
    sql_retry_delay 4 (normalize_alert_notification_retry_config retry)
    ≡ alert_notification_retry_delay_with_config (pos 5) retry
sql_retry_delay_lem_example = sql_retry_delay_lem 4 retry

retry_delay_bounds_example :
    let d = normalize_alert_notification_retry_config retry in
    let delay = alert_notification_retry_delay_with_config (pos 4) retry in
    (pos_part d.base_delay_seconds ≤ delay)
    × (delay ≤ pos_part d.max_delay_minutes * 60)
    × (10 ≤ pos_part d.base_delay_seconds)
    × (pos_part d.max_delay_minutes * 60 ≤ 7200)
retry_delay_bounds_example = retry_delay_bounds (pos 4) retry

retry_delay_mono_example :
    alert_notification_retry_delay_with_config (pos 2) retry
    ≤ alert_notification_retry_delay_with_config (pos 5) retry
retry_delay_mono_example = retry_delay_mono (pos 2) (pos 5) retry (omega arith)

load_alert_runtime_config-IsUsable_example : IsUsable (load_alert_runtime_config none)
load_alert_runtime_config-IsUsable_example = load_alert_runtime_config-IsUsable none
