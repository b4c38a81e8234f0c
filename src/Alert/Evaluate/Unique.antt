-- ===== src/Alert/Evaluate/Unique.antt =====
-- How many active alerts a key has, through the statements on alerts and evaluateRuntimeAlerts.
use kvm_manager.Base.{
  ℕ, ◌≤◌, String, ◌≡◌, refl, sym, subst, Bool, true, false, not, ◌&&◌, ◌||◌, List, [], ◌∷◌, arith,
  ◌==◌, Bool-cases, inl, inr, any, leb, eqb,
}
use kvm_manager.Dict.{Dict}
use kvm_manager.Agents.{Agent}
use kvm_manager.Alert.{Value, Alert, Store}
use kvm_manager.Alert.Config.{AlertRuntimeConfig}
use kvm_manager.Sql.{update_where}
use kvm_manager.Alert.Table.{
  has_key, has_source, resolve, refresh_alert, new_alert, stamp_notified, upsert_active_alert,
  mark_alert_notification_sent, resolve_active_alert_returning,
  resolve_active_alerts_by_source_returning,
}
use kvm_manager.Sql.Rows.{count, count-append, count_none, count-update_where}
use kvm_manager.Alert.Table.Activity.{same_key, has_key-new_alert, has_key_same}
use kvm_manager.Alert.Delivery.{is_wanted, put_deliveries, ensure_alert_notification_deliveries}
use kvm_manager.Alert.Samples.{record_threshold_alert_sample}
use kvm_manager.Alert.Evaluate.{
  Host, VirtualMachine, Service, queue_recovery_notifications, resolve_active_alert,
  resolve_active_alerts_by_source, evaluate_sample, evaluate_host_threshold_alert,
  evaluate_vm_threshold_alert, evaluate_vm_state_alert, evaluate_vm, evaluate_vms,
  evaluate_runtime_alerts,
}
use kvm_manager.Alert.Evaluate.Effects.{alerts-put_deliveries}

abbrev pub IsUnique : List Alert → Type 0
IsUnique alerts =
    (source_type source_id title : String) → count (has_key source_type source_id title) alerts ≤ 1

module _ (source_type source_id title : String) where
  has_key-refresh_back :
      (now : ℕ) (level message : String) (metadata : Dict Value) (a : Alert)
      → has_key source_type source_id title (refresh_alert now level message metadata a) ≡ true
      → has_key source_type source_id title a ≡ true
  unfolding has_key refresh_alert
  has_key-refresh_back now level message metadata a h = h

  has_key-resolve_back :
      (now : ℕ) (a : Alert)
      → has_key source_type source_id title (resolve now a) ≡ true
      → has_key source_type source_id title a ≡ true
  unfolding has_key resolve
  has_key-resolve_back now a h = cc

  count_key_same :
      (source_type' source_id' title' : String) (alerts : List Alert)
      → same_key source_type source_id title source_type' source_id' title' ≡ true
      → count (has_key source_type' source_id' title') alerts
        ≡ count (has_key source_type source_id title) alerts
  count_key_same source_type' source_id' title' [] same = refl
  count_key_same source_type' source_id' title' (a ∷ rest) same = ground (
    arith,
    has_key_same source_type source_id title source_type' source_id' title' same a,
    count_key_same source_type' source_id' title' rest same,
  )

-- Raising an alert leaves at most one active alert for each key.
pub upsert-IsUnique :
    (now : ℕ) (level source_type source_id title message : String) (metadata : Dict Value)
    (s : Store)
    → IsUnique s.alerts
    → IsUnique (upsert_active_alert now level source_type source_id title message metadata s).alerts
unfolding upsert_active_alert
upsert-IsUnique now level source_type source_id title message metadata s u st si ti =
    elim (Bool-cases (any (has_key source_type source_id title) s.alerts)) [
      | inl old ↦
          rw (old, upsert_active_alert)
            (omega (
              arith,
              u st si ti,
              count-update_where (has_key source_type source_id title) (has_key st si ti)
                  (refresh_alert now level message metadata)
                  (λ a _. has_key-refresh_back st si ti now level message metadata a) s.alerts,
            ))
      | inr new ↦
          rw (new, upsert_active_alert)
            (ground (
              arith,
              u st si ti,
              count-append (has_key st si ti) s.alerts (
                  new_alert s.next_alert now level source_type source_id title message metadata
                  ∷ []),
              has_key-new_alert source_type source_id title st si ti s.next_alert now level message
                  metadata,
              count_none (has_key source_type source_id title) s.alerts new,
              count_key_same source_type source_id title st si ti s.alerts,
            ))
    ]

resolve_where-IsUnique :
    (now : ℕ) (p : Alert → Bool) (alerts : List Alert)
    → IsUnique alerts
    → IsUnique (update_where p (resolve now) alerts)
resolve_where-IsUnique now p alerts u st si ti = omega (
  arith,
  u st si ti,
  count-update_where p (has_key st si ti) (resolve now) (λ a _. has_key-resolve_back st si ti now a)
      alerts,
)

has_key-stamp_back :
    (source_type source_id title : String) (now : ℕ) (a : Alert)
    → has_key source_type source_id title (stamp_notified now a) ≡ true
    → has_key source_type source_id title a ≡ true
unfolding has_key stamp_notified
has_key-stamp_back source_type source_id title now a h = h

mark_sent-IsUnique :
    (now id : ℕ) (s : Store)
    → IsUnique s.alerts
    → IsUnique (mark_alert_notification_sent now id s).alerts
unfolding mark_alert_notification_sent
mark_sent-IsUnique now id s u st si ti = omega (
  arith,
  u st si ti,
  count-update_where (λ a. eqb a.id id) (has_key st si ti) (stamp_notified now)
      (λ a _. has_key-stamp_back st si ti now a) s.alerts,
)

ensure-IsUnique :
    (now : ℕ) (a : Alert) (event : String) (s : Store)
    → IsUnique s.alerts
    → IsUnique (ensure_alert_notification_deliveries now a event s).alerts
unfolding ensure_alert_notification_deliveries
ensure-IsUnique now a event s u =
    let queued = put_deliveries now a.id event s.channels s in
    let u' : IsUnique queued.alerts =
      subst IsUnique (sym (alerts-put_deliveries now a.id event s.channels s)) u in
    elim (Bool-cases (not (any (is_wanted event) s.channels) && event == "problem")) [
      | inl unwanted ↦
          rw (unwanted, ensure_alert_notification_deliveries)
            (mark_sent-IsUnique now a.id queued u')
      | inr wanted ↦ rw (wanted, ensure_alert_notification_deliveries) u'
    ]

queue-IsUnique :
    (now : ℕ) (alerts : List Alert) (s : Store)
    → IsUnique s.alerts
    → IsUnique (queue_recovery_notifications now alerts s).alerts
unfolding queue_recovery_notifications
queue-IsUnique now [] s u = u
queue-IsUnique now (a ∷ rest) s u =
    queue-IsUnique now rest (ensure_alert_notification_deliveries now a "recovery" s)
      (ensure-IsUnique now a "recovery" s u)

pub resolve-IsUnique :
    (now : ℕ) (source_type source_id title : String) (s : Store)
    → IsUnique s.alerts
    → IsUnique (resolve_active_alert now source_type source_id title s).alerts
unfolding resolve_active_alert resolve_active_alert_returning
resolve-IsUnique now source_type source_id title s u =
    queue-IsUnique now _ _
      (resolve_where-IsUnique now (has_key source_type source_id title) s.alerts u)

pub resolve_by_source-IsUnique :
    (now : ℕ) (source_type source_id : String) (s : Store)
    → IsUnique s.alerts
    → IsUnique (resolve_active_alerts_by_source now source_type source_id s).alerts
unfolding resolve_active_alerts_by_source resolve_active_alerts_by_source_returning
resolve_by_source-IsUnique now source_type source_id s u =
    queue-IsUnique now _ _
      (resolve_where-IsUnique now (has_source source_type source_id) s.alerts u)

sample-IsUnique :
    (now : ℕ) (source_type source_id title : String) (exceeded : Bool) (limit : ℕ)
    (message : String) (metadata : ℕ → Dict Value) (s : Service)
    → IsUnique s.store.alerts
    → IsUnique
        (evaluate_sample now source_type source_id title exceeded limit message metadata
          s).store.alerts
unfolding evaluate_sample
sample-IsUnique now source_type source_id title true limit message metadata s u =
    let count = (record_threshold_alert_sample source_type source_id title true s.alert_counts).0 in
    elim (Bool-cases (leb limit count)) [
      | inl reached ↦
          rw (reached, evaluate_sample)
            (upsert-IsUnique now "warning" source_type source_id title message (metadata count)
              s.store u)
      | inr below ↦ rw (below, evaluate_sample) u
    ]
sample-IsUnique now source_type source_id title false limit message metadata s u =
    resolve-IsUnique now source_type source_id title s.store u

state-IsUnique :
    (now : ℕ) (item : Agent) (vm : VirtualMachine) (s : Store)
    → IsUnique s.alerts
    → IsUnique (evaluate_vm_state_alert now item vm s).alerts
unfolding evaluate_vm_state_alert
state-IsUnique now item vm s u =
    elim (Bool-cases (vm.status == "error" || vm.status == "unknown")) [
      | inl bad ↦ rw (bad, evaluate_vm_state_alert) (upsert-IsUnique now _ _ _ _ _ _ s u)
      | inr good ↦ rw (good, evaluate_vm_state_alert) (resolve-IsUnique now _ _ _ s u)
    ]

vms-IsUnique :
    (now : ℕ) (c : AlertRuntimeConfig) (item : Agent) (vms : List VirtualMachine) (s : Service)
    → IsUnique s.store.alerts
    → IsUnique (evaluate_vms now c item vms s).store.alerts
unfolding evaluate_vms evaluate_vm evaluate_vm_threshold_alert
vms-IsUnique now c item [] s u = u
vms-IsUnique now c item (vm ∷ rest) s u = vms-IsUnique now c item rest _ (
    sample-IsUnique now _ _ _ _ _ _ _ _ (
      sample-IsUnique now _ _ _ _ _ _ _ _
        (sample-IsUnique now _ _ _ _ _ _ _ _ (state-IsUnique now item vm s.store u))))

-- Evaluating the measurements of a host and of all its machines leaves at most one active alert for
-- each key, if that held before.
pub evaluate_runtime_alerts-IsUnique :
    (now : ℕ) (c : AlertRuntimeConfig) (item : Agent) (host : Host) (vms : List VirtualMachine)
    (s : Service)
    → IsUnique s.store.alerts
    → IsUnique (evaluate_runtime_alerts now c item host vms s).store.alerts
unfolding evaluate_runtime_alerts evaluate_host_threshold_alert
evaluate_runtime_alerts-IsUnique now c item host vms s u = vms-IsUnique now c item vms _ (
    sample-IsUnique now _ _ _ _ _ _ _ _
      (sample-IsUnique now _ _ _ _ _ _ _ _ (sample-IsUnique now _ _ _ _ _ _ _ _ u)))
