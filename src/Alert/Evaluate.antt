-- ===== src/Alert/Evaluate.antt =====
-- Turning measurements into alerts: the evaluate… functions, notifyPendingAlerts and the helpers
-- around them in backend/internal/service/realtime/service.go, alert_notifications.go and
-- alert_metadata.go. Every statement reaches the database; the code ignores the error of one that
-- does not. The map of machines is a list, in the order in which Go ranges over it.
pub mod Effects
pub mod Streak
pub mod Unique
use kvm_manager.Base.{
  ℕ, ◌+◌, String, Bool, true, false, ◌&&◌, ◌||◌, List, [], ◌∷◌, ◌==◌, leb, if◌then◌else◌,
}
use kvm_manager.Text.{◌<>◌, trim_space, decimal}
use kvm_manager.Dict.{Dict, put}
use kvm_manager.Agents.{Agent}
use kvm_manager.Alert.{Value, text, number, Alert, Store}
use kvm_manager.Alert.Config.{AlertRuntimeConfig}
use kvm_manager.Alert.Table.{
  upsert_active_alert, resolve_active_alert_returning, resolve_active_alerts_by_source_returning,
}
use kvm_manager.Alert.Delivery.{ensure_alert_notification_deliveries}
use kvm_manager.Alert.Samples.{record_threshold_alert_sample}

-- The fields of a host and a machine that alerts read. The usage values have been through
-- clampPercent.
pub record Host : Type 0 where
  pub cpu_usage : ℕ
  pub memory_usage : ℕ
  pub storage_usage : ℕ

pub record VirtualMachine : Type 0 where
  pub id : String
  pub name : String
  pub description : String
  pub primary_ip : String
  pub status : String
  pub cpu_usage : ℕ
  pub cpu_usage_available : Bool
  pub memory_usage : ℕ
  pub memory_usage_available : Bool
  pub disk_usage : ℕ
  pub disk_usage_available : Bool

-- The part of the service that alerts change.
pub record Service : Type 0 where
  pub store : Store
  pub alert_counts : Dict ℕ

unfoldable pub queue_recovery_notifications : ℕ → List Alert → Store → Store
queue_recovery_notifications now [] s = s
queue_recovery_notifications now (a ∷ rest) s =
    queue_recovery_notifications now rest (ensure_alert_notification_deliveries now a "recovery" s)

unfoldable pub resolve_active_alert : ℕ → String → String → String → Store → Store
resolve_active_alert now source_type source_id title s =
    let (alerts, s') = resolve_active_alert_returning now source_type source_id title s in
    queue_recovery_notifications now alerts s'

unfoldable pub resolve_active_alerts_by_source : ℕ → String → String → Store → Store
resolve_active_alerts_by_source now source_type source_id s =
    let (alerts, s') = resolve_active_alerts_by_source_returning now source_type source_id s in
    queue_recovery_notifications now alerts s'

template_fallback : String → String
template_fallback value = if trim_space value == "" then "-" else value

put_all : Dict Value → Dict Value → Dict Value
put_all [] m = m
put_all ((k, v) ∷ rest) m = put_all rest (put k v m)

unfoldable pub vm_alert_metadata : Agent → VirtualMachine → Dict Value → Dict Value
unfolding template_fallback put_all
vm_alert_metadata item vm extra = put_all extra (
    ("agent", text item.name)
    ∷ ("vm", text vm.name)
    ∷ ("vmIp", text (template_fallback vm.primary_ip))
    ∷ ("vmDescription", text (template_fallback vm.description))
    ∷ [])

abbrev threshold_metadata : String → ℕ → ℕ → ℕ → Dict Value
threshold_metadata key value limit count =
    ("metric", text key)
    ∷ ("value", number value)
    ∷ ("limit", number limit)
    ∷ ("consecutive", number count)
    ∷ []

-- The shape that the host's and the machine's tests share: count a sample over the limit and raise
-- the alert from the consecutive limit on; else drop the count and resolve.
unfoldable pub evaluate_sample :
    ℕ → String → String → String → Bool → ℕ → String → (ℕ → Dict Value) → Service → Service
evaluate_sample now source_type source_id title exceeded consecutive_limit message metadata s =
    let (count, counts) =
      record_threshold_alert_sample source_type source_id title exceeded s.alert_counts in
    let raised =
      upsert_active_alert now "warning" source_type source_id title message (metadata count)
        s.store in
    let cleared = resolve_active_alert now source_type source_id title s.store in
    record {
      store =
          if exceeded then (if leb consecutive_limit count then raised else s.store) else cleared;
      alert_counts = counts;
    }

-- The key of a threshold alert.
abbrev pub host_source_id : Agent → String → String
host_source_id item key = item.id <> ":" <> key

abbrev pub host_title : String → String
host_title metric = "宿主机" <> metric <> "使用率过高"

abbrev pub vm_source_id : VirtualMachine → String → String
vm_source_id vm key = vm.id <> ":" <> key

abbrev pub vm_title : String → String
vm_title metric = "虚拟机" <> metric <> "使用率过高"

unfoldable pub evaluate_host_threshold_alert :
    ℕ → Agent → String → ℕ → ℕ → ℕ → String → Service → Service
evaluate_host_threshold_alert now item metric value limit consecutive_limit key s =
    evaluate_sample now "host" (host_source_id item key) (host_title metric) (leb limit value)
      consecutive_limit ("宿主机 " <> item.name <> " " <> metric <> " 使用率达到 " <> decimal value <> "%")
      (λ count. ("agent", text item.name) ∷ threshold_metadata key value limit count) s

unfoldable pub evaluate_vm_threshold_alert :
    ℕ → Agent → VirtualMachine → String → ℕ → Bool → ℕ → ℕ → String → Service → Service
evaluate_vm_threshold_alert now item vm metric value available limit consecutive_limit key s =
    evaluate_sample now "virtual_machine" (vm_source_id vm key) (vm_title metric)
      (available && leb limit value) consecutive_limit
      ("虚拟机 " <> vm.name <> " " <> metric <> " 使用率达到 " <> decimal value <> "%")
      (λ count. vm_alert_metadata item vm (threshold_metadata key value limit count)) s

unfoldable pub evaluate_vm_state_alert : ℕ → Agent → VirtualMachine → Store → Store
evaluate_vm_state_alert now item vm s =
    if vm.status == "error" || vm.status == "unknown"
    then upsert_active_alert now "critical" "virtual_machine" (vm.id <> ":state") "虚拟机状态异常"
        ("虚拟机 " <> vm.name <> " 当前状态为 " <> vm.status)
        (vm_alert_metadata item vm (("status", text vm.status) ∷ [])) s
    else resolve_active_alert now "virtual_machine" (vm.id <> ":state") "虚拟机状态异常" s

unfoldable pub evaluate_vm : ℕ → AlertRuntimeConfig → Agent → VirtualMachine → Service → Service
evaluate_vm now c item vm s =
    let s₁ = record s { store = evaluate_vm_state_alert now item vm s.store } in
    let s₂ =
      evaluate_vm_threshold_alert now item vm "CPU" vm.cpu_usage vm.cpu_usage_available
        c.resource_limit c.consecutive_limit "cpu" s₁ in
    let s₃ =
      evaluate_vm_threshold_alert now item vm "内存" vm.memory_usage vm.memory_usage_available
        c.resource_limit c.consecutive_limit "memory" s₂ in
    evaluate_vm_threshold_alert now item vm "磁盘" vm.disk_usage vm.disk_usage_available
      c.resource_limit c.consecutive_limit "disk" s₃

unfoldable pub evaluate_vms :
    ℕ → AlertRuntimeConfig → Agent → List VirtualMachine → Service → Service
unfolding evaluate_vm
evaluate_vms now c item [] s = s
evaluate_vms now c item (vm ∷ rest) s = evaluate_vms now c item rest (evaluate_vm now c item vm s)

unfoldable pub evaluate_runtime_alerts :
    ℕ → AlertRuntimeConfig → Agent → Host → List VirtualMachine → Service → Service
unfolding evaluate_vms
evaluate_runtime_alerts now c item host vms s =
    let s₁ =
      evaluate_host_threshold_alert now item "CPU" host.cpu_usage c.resource_limit
        c.consecutive_limit "cpu" s in
    let s₂ =
      evaluate_host_threshold_alert now item "内存" host.memory_usage c.resource_limit
        c.consecutive_limit "memory" s₁ in
    let s₃ =
      evaluate_host_threshold_alert now item "存储" host.storage_usage c.resource_limit
        c.consecutive_limit "storage" s₂ in
    evaluate_vms now c item vms s₃
