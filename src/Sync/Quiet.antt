-- ===== src/Sync/Quiet.antt =====
-- Agent alerts, through notifyPendingAlerts and evaluateRuntimeAlerts.
use kvm_manager.Base.{
  ℕ, String, ◌≡◌, refl, ◌∙◌, Bool, true, false, ◌||◌, Option, List, [], ◌∷◌, arith, ◌==◌,
  Bool-cases, Option-cases, inl, inr, leb,
}
use kvm_manager.Dict.{Dict}
use kvm_manager.Agents.{Agent}
use kvm_manager.Alert.{Value, Alert, AlertNotificationDelivery, NotificationChannel, Store}
use kvm_manager.Alert.Config.{AlertRuntimeConfig}
use kvm_manager.Alert.Retry.{AlertNotificationRetryConfig}
use kvm_manager.Sql.Rows.{any-update_where_none}
use kvm_manager.Alert.Samples.{record_threshold_alert_sample}
use kvm_manager.Alert.Table.{
  upsert_active_alert, has_key, has_source, resolve, resolve_active_alerts_by_source_returning,
}
use kvm_manager.Alert.Table.Activity.{has_active, same_key, has_active-upsert}
use kvm_manager.Alert.Delivery.{
  find_channel, close_delivery, attempt, is_wanted, mark_alert_notification_delivery_sent,
  mark_alert_notification_delivery_failed_with_config, notify_delivery,
}
use kvm_manager.Alert.Evaluate.{
  Host, VirtualMachine, Service, resolve_active_alert, resolve_active_alerts_by_source,
  evaluate_sample, evaluate_host_threshold_alert, evaluate_vm_threshold_alert,
  evaluate_vm_state_alert, evaluate_vm, evaluate_vms, evaluate_runtime_alerts,
}
use kvm_manager.Alert.Evaluate.Effects.{
  has_active-mark_sent, has_active-ensure, has_active-queue, has_active-resolve_active_alert,
}
use kvm_manager.Alert.Notify.{queue_problem_notifications, notify_deliveries, notify_pending_alerts}

module _ (st si ti : String) where
  has_active-problems :
      (now : ℕ) (alerts : List Alert) (s : Store)
      → has_active st si ti (queue_problem_notifications now alerts s) ≡ has_active st si ti s
  unfolding queue_problem_notifications
  has_active-problems now [] s = refl
  has_active-problems now (a ∷ rest) s =
      has_active-problems now rest _ ∙ has_active-ensure st si ti now a "problem" s

  has_active-close :
      (now : ℕ) (d : AlertNotificationDelivery) (alert : Alert) (s : Store)
      → has_active st si ti (close_delivery now d alert s) ≡ has_active st si ti s
  unfolding close_delivery mark_alert_notification_delivery_sent
  has_active-close now d alert s = elim (Bool-cases (d.event_type == "problem")) [
    | inl e ↦ rw e (has_active-mark_sent st si ti now alert.id _)
    | inr e ↦ rw e refl
  ]

  module _ (send : NotificationChannel → String → Alert → Option String) where
    has_active-attempt :
        (now : ℕ) (config : AlertNotificationRetryConfig) (d : AlertNotificationDelivery)
        (alert : Alert) (channel : NotificationChannel) (s : Store)
        → has_active st si ti (attempt send now config d alert channel s) ≡ has_active st si ti s
    unfolding attempt mark_alert_notification_delivery_failed_with_config
    has_active-attempt now config d alert channel s =
        elim (Option-cases (send channel d.event_type alert)) [
          | inl e ↦ rw (e, attempt) (has_active-close now d alert s)
          | inr (message, e) ↦ rw (e, attempt) refl
        ]

    has_active-delivery :
        (now : ℕ) (config : AlertNotificationRetryConfig) (d : AlertNotificationDelivery)
        (alert : Alert) (s : Store)
        → has_active st si ti (notify_delivery send now config (d, alert) s) ≡ has_active st si ti s
    unfolding notify_delivery
    has_active-delivery now config d alert s =
        elim (Option-cases (find_channel d.channel_id s.channels)) [
          | inl e ↦ rw (e, notify_delivery) (has_active-close now d alert s)
          | inr (channel, e) ↦
              rw (e, notify_delivery)
                (elim (Bool-cases (is_wanted d.event_type channel)) [
                  | inl w ↦ rw w (has_active-attempt now config d alert channel s)
                  | inr w ↦ rw w (has_active-close now d alert s)
                ])
        ]

    has_active-deliveries :
        (now : ℕ) (config : AlertNotificationRetryConfig)
        (ds : List (AlertNotificationDelivery × Alert)) (s : Store)
        → has_active st si ti (notify_deliveries send now config ds s) ≡ has_active st si ti s
    unfolding notify_deliveries
    has_active-deliveries now config [] s = refl
    has_active-deliveries now config ((d, alert) ∷ rest) s =
        has_active-deliveries now config rest _ ∙ has_active-delivery now config d alert s

    -- Notifications leave every alert as active as it was.
    pub has_active-notify :
        (notifier : Bool) (now : ℕ) (config : AlertRuntimeConfig)
        (retry : AlertNotificationRetryConfig) (s : Store)
        → has_active st si ti (notify_pending_alerts send notifier now config retry s)
          ≡ has_active st si ti s
    unfolding notify_pending_alerts
    has_active-notify false now config retry s = refl
    has_active-notify true now config retry s =
        has_active-deliveries now retry _ _ ∙ has_active-problems now _ s

  -- Resolving a source ends its alerts.
  pub has_active-resolve_by_source :
      (now : ℕ) (s : Store)
      → has_active st si ti (resolve_active_alerts_by_source now st si s) ≡ false
  unfolding resolve_active_alerts_by_source resolve_active_alerts_by_source_returning has_source
      has_key resolve
  has_active-resolve_by_source now s =
      has_active-queue st si ti now _ _
      ∙ any-update_where_none (has_source st si) (has_key st si ti) (resolve now) (λ a h. refl)
          (λ a h. ground arith) s.alerts

-- The keys of agents' alerts are not those of hosts and machines.
module _ (si ti : String) where
  Leaves : Service → Service → Type 0
  Leaves s s' = has_active "agent" si ti s'.store ≡ has_active "agent" si ti s.store

  quiet_upsert :
      (now : ℕ) (level st' si' ti' message : String) (metadata : Dict Value) (s : Store)
      → same_key st' si' ti' "agent" si ti ≡ false
      → has_active "agent" si ti (upsert_active_alert now level st' si' ti' message metadata s)
        ≡ has_active "agent" si ti s
  quiet_upsert now level st' si' ti' message metadata s other =
      has_active-upsert st' si' ti' "agent" si ti now level message metadata s ∙ rw other refl

  quiet_resolve :
      (now : ℕ) (st' si' ti' : String) (s : Store)
      → same_key st' si' ti' "agent" si ti ≡ false
      → has_active "agent" si ti (resolve_active_alert now st' si' ti' s)
        ≡ has_active "agent" si ti s
  quiet_resolve now st' si' ti' s other =
      has_active-resolve_active_alert st' si' ti' "agent" si ti now s ∙ rw other refl

  quiet_sample :
      (now : ℕ) (st' si' ti' : String) (exceeded : Bool) (limit : ℕ) (message : String)
      (metadata : ℕ → Dict Value) (s : Service)
      → same_key st' si' ti' "agent" si ti ≡ false
      → Leaves s (evaluate_sample now st' si' ti' exceeded limit message metadata s)
  unfolding Leaves evaluate_sample
  quiet_sample now st' si' ti' false limit message metadata s other =
      quiet_resolve now st' si' ti' s.store other
  quiet_sample now st' si' ti' true limit message metadata s other =
      let counted = (record_threshold_alert_sample st' si' ti' true s.alert_counts).0 in
      elim (Bool-cases (leb limit counted)) [
        | inl e ↦
            rw (e, evaluate_sample)
              (quiet_upsert now "warning" st' si' ti' message (metadata counted) s.store other)
        | inr e ↦ rw (e, evaluate_sample) refl
      ]

  quiet_host :
      (now : ℕ) (item : Agent) (metric : String) (value limit consecutive : ℕ) (key : String)
      (s : Service)
      → Leaves s (evaluate_host_threshold_alert now item metric value limit consecutive key s)
  unfolding evaluate_host_threshold_alert
  quiet_host now item metric value limit consecutive key s =
      quiet_sample now "host" _ _ _ _ _ _ s refl

  quiet_vm_metric :
      (now : ℕ) (item : Agent) (vm : VirtualMachine) (metric : String) (value : ℕ)
      (available : Bool) (limit consecutive : ℕ) (key : String) (s : Service)
      → Leaves s
          (evaluate_vm_threshold_alert now item vm metric value available limit consecutive key s)
  unfolding evaluate_vm_threshold_alert
  quiet_vm_metric now item vm metric value available limit consecutive key s =
      quiet_sample now "virtual_machine" _ _ _ _ _ _ s refl

  quiet_vm_state :
      (now : ℕ) (item : Agent) (vm : VirtualMachine) (s : Service)
      → Leaves s (record s { store = evaluate_vm_state_alert now item vm s.store })
  unfolding Leaves evaluate_vm_state_alert
  quiet_vm_state now item vm s =
      elim (Bool-cases (vm.status == "error" || vm.status == "unknown")) [
        | inl e ↦
            rw (e, evaluate_vm_state_alert)
              (quiet_upsert now "critical" "virtual_machine" _ _ _ _ s.store refl)
        | inr e ↦
            rw (e, evaluate_vm_state_alert) (quiet_resolve now "virtual_machine" _ _ s.store refl)
      ]

  quiet_vms :
      (now : ℕ) (c : AlertRuntimeConfig) (item : Agent) (vms : List VirtualMachine) (s : Service)
      → Leaves s (evaluate_vms now c item vms s)
  unfolding Leaves evaluate_vms evaluate_vm
  quiet_vms now c item [] s = refl
  quiet_vms now c item (vm ∷ rest) s =
      quiet_vms now c item rest _
      ∙ quiet_vm_metric now item vm "磁盘" _ _ _ _ "disk" _
      ∙ quiet_vm_metric now item vm "内存" _ _ _ _ "memory" _
      ∙ quiet_vm_metric now item vm "CPU" _ _ _ _ "cpu" _
      ∙ quiet_vm_state now item vm s

  -- Testing a host and its machines leaves the alerts about agents.
  pub has_active-evaluate_runtime_alerts :
      (now : ℕ) (c : AlertRuntimeConfig) (item : Agent) (host : Host) (vms : List VirtualMachine)
      (s : Service)
      → has_active "agent" si ti (evaluate_runtime_alerts now c item host vms s).store
        ≡ has_active "agent" si ti s.store
  unfolding Leaves evaluate_runtime_alerts
  has_active-evaluate_runtime_alerts now c item host vms s =
      quiet_vms now c item vms _
      ∙ quiet_host now item "存储" _ _ _ "storage" _
      ∙ quiet_host now item "内存" _ _ _ "memory" _
      ∙ quiet_host now item "CPU" _ _ _ "cpu" s
