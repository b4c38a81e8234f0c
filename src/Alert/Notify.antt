-- ===== src/Alert/Notify.antt =====
-- notifyPendingAlerts of backend/internal/service/realtime/service.go, with queueProblemNotification
-- of alert_notifications.go: queue the notifications of new alerts, then try those that are due.
use kvm_manager.Base.{ℕ, String, Bool, true, false, Option, List, [], ◌∷◌}
use kvm_manager.Alert.{Alert, NotificationChannel, AlertNotificationDelivery, Store}
use kvm_manager.Alert.Config.{AlertRuntimeConfig}
use kvm_manager.Alert.Retry.{AlertNotificationRetryConfig}
use kvm_manager.Alert.Table.{list_pending_alert_notifications}
use kvm_manager.Alert.Delivery.{
  ensure_alert_notification_deliveries, list_pending_alert_notification_deliveries, notify_delivery,
}

unfoldable pub queue_problem_notifications : ℕ → List Alert → Store → Store
queue_problem_notifications now [] s = s
queue_problem_notifications now (a ∷ rest) s =
    queue_problem_notifications now rest (ensure_alert_notification_deliveries now a "problem" s)

module _ (send : NotificationChannel → String → Alert → Option String) where
  unfoldable pub notify_deliveries :
      ℕ → AlertNotificationRetryConfig → List (AlertNotificationDelivery × Alert) → Store → Store
  notify_deliveries now retry [] s = s
  notify_deliveries now retry (d ∷ rest) s =
      notify_deliveries now retry rest (notify_delivery send now retry d s)

  -- The flag tells whether the service has a notifier.
  unfoldable pub notify_pending_alerts :
      Bool → ℕ → AlertRuntimeConfig → AlertNotificationRetryConfig → Store → Store
  notify_pending_alerts false now config retry s = s
  notify_pending_alerts true now config retry s =
      let queued =
        queue_problem_notifications now
          (list_pending_alert_notifications config.notification_batch_size s) s in
      notify_deliveries now retry
        (list_pending_alert_notification_deliveries now config.notification_batch_size queued)
        queued
