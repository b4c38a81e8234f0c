-- ===== src/Alert/Evaluate/Effects.antt =====
-- Which keys have an active alert after a test of the service: the notifications that it queues
-- change no alert's key or status.
use kvm_manager.Base.{
  ℕ, String, ◌≡◌, refl, ◌∙◌, ap, false, List, [], ◌∷◌, arith, Bool-cases, inl, inr, any, eqb,
  if◌then◌else◌,
}
use kvm_manager.Alert.{Alert, Store, NotificationChannel}
use kvm_manager.Alert.Table.{
  has_key, stamp_notified, mark_alert_notification_sent, resolve_active_alert_returning,
}
use kvm_manager.Sql.Rows.{any-update_where}
use kvm_manager.Alert.Table.Activity.{has_active, same_key, has_active-resolve}
use kvm_manager.Alert.Delivery.{
  is_wanted, put_delivery, put_deliveries, ensure_alert_notification_deliveries,
}
use kvm_manager.Alert.Evaluate.{queue_recovery_notifications, resolve_active_alert}

alerts-put_delivery :
    (now id : ℕ) (event channel : String) (s : Store)
    → (put_delivery now id event channel s).alerts ≡ s.alerts
unfolding put_delivery
alerts-put_delivery now id event channel s = ground arith

pub alerts-put_deliveries :
    (now id : ℕ) (event : String) (cs : List NotificationChannel) (s : Store)
    → (put_deliveries now id event cs s).alerts ≡ s.alerts
unfolding put_deliveries
alerts-put_deliveries now id event [] s = refl
alerts-put_deliveries now id event (c ∷ cs) s = elim (Bool-cases (is_wanted event c)) [
  | inl wanted ↦
      rw (wanted, put_deliveries)
        (alerts-put_deliveries now id event cs (put_delivery now id event c.id s)
          ∙ alerts-put_delivery now id event c.id s)
  | inr skipped ↦ rw (skipped, put_deliveries) (alerts-put_deliveries now id event cs s)
]

module _ (source_type source_id title : String) where
  pub has_active-mark_sent :
      (now id : ℕ) (s : Store)
      → has_active source_type source_id title (mark_alert_notification_sent now id s)
        ≡ has_active source_type source_id title s
  unfolding mark_alert_notification_sent stamp_notified has_key
  has_active-mark_sent now id s =
      any-update_where (λ a. eqb a.id id) (has_key source_type source_id title) (stamp_notified now)
        (λ a _. refl) s.alerts

  pub has_active-ensure :
      (now : ℕ) (a : Alert) (event : String) (s : Store)
      → has_active source_type source_id title (ensure_alert_notification_deliveries now a event s)
        ≡ has_active source_type source_id title s
  unfolding ensure_alert_notification_deliveries
  has_active-ensure now a event s =
      let queued = put_deliveries now a.id event s.channels s in
      let same =
        ap (any (has_key source_type source_id title))
          (alerts-put_deliveries now a.id event s.channels s) in
      ground (arith, has_active-mark_sent now a.id queued, same)

  pub has_active-queue :
      (now : ℕ) (alerts : List Alert) (s : Store)
      → has_active source_type source_id title (queue_recovery_notifications now alerts s)
        ≡ has_active source_type source_id title s
  unfolding queue_recovery_notifications
  has_active-queue now [] s = refl
  has_active-queue now (a ∷ rest) s =
      has_active-queue now rest (ensure_alert_notification_deliveries now a "recovery" s)
      ∙ has_active-ensure now a "recovery" s

module _ (source_type source_id title source_type' source_id' title' : String) where
  pub has_active-resolve_active_alert :
      (now : ℕ) (s : Store)
      → has_active source_type' source_id' title'
          (resolve_active_alert now source_type source_id title s)
        ≡ (if same_key source_type source_id title source_type' source_id' title'
            then false
            else has_active source_type' source_id' title' s)
  unfolding resolve_active_alert
  has_active-resolve_active_alert now s =
      has_active-queue source_type' source_id' title' now
        (resolve_active_alert_returning now source_type source_id title s).0
        (resolve_active_alert_returning now source_type source_id title s).1
      ∙ has_active-resolve source_type source_id title source_type' source_id' title' now s
