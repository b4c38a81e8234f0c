-- ===== src/Alert/Delivery.antt =====
-- The queue of notifications: backend/internal/repository/alert_notification_deliveries.go, and
-- NotifyDelivery of backend/internal/service/notification/service.go. The call that sends a message
-- over HTTP or SMTP is the parameter `send`: `none` for success, else the message of the error. The
-- JSON payload of a delivery repeats two of its columns and is left out.
pub mod Lifecycle
use kvm_manager.Base.{
  ℕ, suc, ◌+◌, String, Bool, true, false, not, ◌&&◌, ◌||◌, Option, none, some, List, [], ◌∷◌, ◌++◌,
  ◌==◌, leb, eqb, if◌then◌else◌, filter, any, take,
}
use kvm_manager.Base.Int.{pos, pos_part, leb_ℤ}
use kvm_manager.Alert.{Alert, NotificationChannel, AlertNotificationDelivery, Store}
use kvm_manager.Alert.Retry.{
  AlertNotificationRetryConfig, normalize_alert_notification_retry_config, sql_retry_delay,
}
use kvm_manager.Sql.{update_where, sort_by}
use kvm_manager.Alert.Table.{page_limit, mark_alert_notification_sent}

-- The key of the unique index on deliveries.
unfoldable pub same_delivery : ℕ → String → String → AlertNotificationDelivery → Bool
same_delivery alert_id event_type channel_id d =
    eqb d.alert_id alert_id && (d.event_type == event_type && d.channel_id == channel_id)

-- ON CONFLICT … DO UPDATE … WHERE status = 'failed'
unfoldable pub requeue : ℕ → AlertNotificationDelivery → AlertNotificationDelivery
requeue now d = record d { status = "pending"; error = ""; next_retry_at = now; updated_at = now }

-- The row that the INSERT below adds, with the defaults of the table.
unfoldable pub new_delivery : ℕ → ℕ → ℕ → String → String → AlertNotificationDelivery
new_delivery id now alert_id event_type channel_id = record {
  id = id;
  alert_id = alert_id;
  event_type = event_type;
  channel_id = channel_id;
  status = "pending";
  error = "";
  retry_count = 0;
  next_retry_at = now;
  last_attempt_at = none;
  sent_at = none;
  created_at = now;
  updated_at = now;
}

-- INSERT … ON CONFLICT (alert_id, event_type, channel_id)
unfoldable pub put_delivery : ℕ → ℕ → String → String → Store → Store
put_delivery now alert_id event_type channel_id s =
    if any (same_delivery alert_id event_type channel_id) s.deliveries
    then record s {
      deliveries =
          update_where (λ d. same_delivery alert_id event_type channel_id d && d.status == "failed")
            (requeue now) s.deliveries;
    }
    else record s {
      deliveries =
          s.deliveries ++ new_delivery s.next_delivery now alert_id event_type channel_id ∷ [];
      next_delivery = suc s.next_delivery;
    }

-- The two tests that skip a channel.
unfoldable pub is_wanted : String → NotificationChannel → Bool
is_wanted event_type c = c.enabled && not (event_type == "recovery" && not c.send_recovery)

-- The loop over the channels.
unfoldable pub put_deliveries : ℕ → ℕ → String → List NotificationChannel → Store → Store
put_deliveries now alert_id event_type [] s = s
put_deliveries now alert_id event_type (c ∷ rest) s =
    put_deliveries now alert_id event_type rest
      (if is_wanted event_type c then put_delivery now alert_id event_type c.id s else s)

-- EnsureAlertNotificationDeliveries
unfoldable pub ensure_alert_notification_deliveries : ℕ → Alert → String → Store → Store
ensure_alert_notification_deliveries now alert event_type s =
    let queued = put_deliveries now alert.id event_type s.channels s in
    if not (any (is_wanted event_type) s.channels) && event_type == "problem"
    then mark_alert_notification_sent now alert.id queued
    else queued

-- JOIN alerts a ON a.id = d.alert_id
find_alert : ℕ → List Alert → Option Alert
find_alert id [] = none
find_alert id (a ∷ rest) = if eqb a.id id then some a else find_alert id rest

join_alert : AlertNotificationDelivery → Option Alert → List (AlertNotificationDelivery × Alert)
join_alert d none = []
join_alert d (some a) = (d, a) ∷ []

join_alerts : List Alert → List AlertNotificationDelivery → List (AlertNotificationDelivery × Alert)
unfolding find_alert join_alert
join_alerts alerts [] = []
join_alerts alerts (d ∷ rest) =
    join_alert d (find_alert d.alert_id alerts) ++ join_alerts alerts rest

unfoldable pub is_due : ℕ → AlertNotificationDelivery → Bool
is_due now d = d.status == "pending" && leb d.next_retry_at now

-- ORDER BY next_retry_at ASC, created_at ASC
abbrev earlier : AlertNotificationDelivery × Alert → AlertNotificationDelivery × Alert → Bool
earlier (d, a) (e, b) =
    if eqb d.next_retry_at e.next_retry_at
    then leb d.created_at e.created_at
    else leb d.next_retry_at e.next_retry_at

unfoldable pub list_pending_alert_notification_deliveries :
    ℕ → ℕ → Store → List (AlertNotificationDelivery × Alert)
unfolding join_alerts is_due
list_pending_alert_notification_deliveries now limit s =
    take (page_limit limit)
      (sort_by earlier (join_alerts s.alerts (filter (is_due now) s.deliveries)))

unfoldable pub mark_sent : ℕ → AlertNotificationDelivery → AlertNotificationDelivery
mark_sent now d = record d {
  status = "sent";
  error = "";
  last_attempt_at = some now;
  sent_at = some now;
  updated_at = now;
}

unfoldable pub mark_alert_notification_delivery_sent : ℕ → ℕ → Store → Store
unfolding mark_sent
mark_alert_notification_delivery_sent now id s = record s {
  deliveries = update_where (λ d. eqb d.id id) (mark_sent now) s.deliveries;
}

-- The row after a failed attempt, under a normalised configuration.
unfoldable pub mark_failed :
    ℕ
    → String
    → AlertNotificationRetryConfig
    → AlertNotificationDelivery
    → AlertNotificationDelivery
mark_failed now message config d = record d {
  status = if leb_ℤ config.max_retry_count (pos (d.retry_count + 1)) then "failed" else "pending";
  error = message;
  retry_count = d.retry_count + 1;
  last_attempt_at = some now;
  next_retry_at = now + sql_retry_delay d.retry_count config;
  updated_at = now;
}

unfoldable pub mark_alert_notification_delivery_failed_with_config :
    ℕ → ℕ → String → AlertNotificationRetryConfig → Store → Store
unfolding mark_failed
mark_alert_notification_delivery_failed_with_config now id message config s = record s {
  deliveries =
      update_where (λ d. eqb d.id id)
        (mark_failed now message (normalize_alert_notification_retry_config config)) s.deliveries;
}

unfoldable pub find_channel : String → List NotificationChannel → Option NotificationChannel
find_channel id [] = none
find_channel id (c ∷ rest) = if c.id == id then some c else find_channel id rest

-- What follows a message that was sent, or that nobody wants any more.
unfoldable pub close_delivery : ℕ → AlertNotificationDelivery → Alert → Store → Store
close_delivery now d alert s =
    let sent = mark_alert_notification_delivery_sent now d.id s in
    if d.event_type == "problem" then mark_alert_notification_sent now alert.id sent else sent

module _ (send : NotificationChannel → String → Alert → Option String) where
  unfoldable pub attempt :
      ℕ
      → AlertNotificationRetryConfig
      → AlertNotificationDelivery
      → Alert
      → NotificationChannel
      → Store
      → Store
  unfolding close_delivery
  attempt now config d alert channel s = elim (send channel d.event_type alert) [
    | none ↦ close_delivery now d alert s
    | some message ↦ mark_alert_notification_delivery_failed_with_config now d.id message config s
  ]

  -- NotifyDelivery, with the retry settings of its runtime configuration
  unfoldable pub notify_delivery :
      ℕ → AlertNotificationRetryConfig → AlertNotificationDelivery × Alert → Store → Store
  unfolding find_channel attempt
  notify_delivery now config (d, alert) s = elim (find_channel d.channel_id s.channels) [
    | none ↦ close_delivery now d alert s
    | some channel ↦
        if is_wanted d.event_type channel
        then attempt now config d alert channel s
        else close_delivery now d alert s
  ]
