-- ===== src/Alert/Table.antt =====
-- The statements on the table alerts: backend/internal/repository/repository.go,
-- alerts_resolution.go, alert_notifications.go and notifications.go. An UPDATE maps over the rows,
-- and ORDER BY is an insertion sort.
pub mod Activity
use kvm_manager.Base.{
  ℕ, suc, ◌+◌, String, Bool, true, false, not, ◌&&◌, ◌||◌, Option, none, some, List, [], ◌∷◌, ◌++◌,
  map, ◌==◌, ltb, leb, eqb, if◌then◌else◌, filter, any, take, length,
}
use kvm_manager.Dict.{Dict}
use kvm_manager.Sql.{update_where, sort_by, is_none, coalesce}
use kvm_manager.Alert.{Value, Alert, Store}

unfoldable pub is_active : Alert → Bool
is_active a = a.status == "active"

-- The key of the unique index on active rows.
unfoldable pub has_key : String → String → String → Alert → Bool
unfolding is_active
has_key source_type source_id title a =
    is_active a && (a.source_type == source_type && (a.source_id == source_id && a.title == title))

unfoldable pub has_source : String → String → Alert → Bool
unfolding is_active
has_source source_type source_id a =
    is_active a && (a.source_type == source_type && a.source_id == source_id)

unfoldable pub resolve : ℕ → Alert → Alert
resolve now a = record a { status = "resolved"; resolved_at = some now; updated_at = now }

-- What the UPDATE of the statement below sets.
unfoldable pub refresh_alert : ℕ → String → String → Dict Value → Alert → Alert
refresh_alert now level message metadata a = record a {
  level = level;
  message = message;
  metadata = metadata;
  last_seen_at = now;
  updated_at = now;
}

-- The row that its INSERT adds, with the defaults of the table.
unfoldable pub new_alert : ℕ → ℕ → String → String → String → String → String → Dict Value → Alert
new_alert id now level source_type source_id title message metadata = record {
  id = id;
  level = level;
  status = "active";
  source_type = source_type;
  source_id = source_id;
  title = title;
  message = message;
  metadata = metadata;
  first_seen_at = now;
  last_seen_at = now;
  resolved_at = none;
  notification_sent_at = none;
  read_at = none;
  dismissed_at = none;
  created_at = now;
  updated_at = now;
}

-- INSERT … ON CONFLICT (source_type, source_id, title) WHERE status = 'active' DO UPDATE
unfoldable pub upsert_active_alert :
    ℕ → String → String → String → String → String → Dict Value → Store → Store
upsert_active_alert now level source_type source_id title message metadata s =
    if any (has_key source_type source_id title) s.alerts
    then record s {
      alerts =
          update_where (has_key source_type source_id title)
            (refresh_alert now level message metadata) s.alerts;
    }
    else record s {
      alerts =
          s.alerts
          ++ new_alert s.next_alert now level source_type source_id title message metadata ∷ [];
      next_alert = suc s.next_alert;
    }

-- UPDATE … RETURNING: the changed rows come back beside the new table.
abbrev resolve_where : ℕ → (Alert → Bool) → Store → List Alert × Store
resolve_where now p s = (
  map (resolve now) (filter p s.alerts),
  record s { alerts = update_where p (resolve now) s.alerts },
)

unfoldable pub resolve_active_alert_returning :
    ℕ → String → String → String → Store → List Alert × Store
resolve_active_alert_returning now source_type source_id title s =
    resolve_where now (has_key source_type source_id title) s

unfoldable pub resolve_active_alerts_by_source_returning :
    ℕ → String → String → Store → List Alert × Store
resolve_active_alerts_by_source_returning now source_type source_id s =
    resolve_where now (has_source source_type source_id) s

-- `none` is ErrNotFound.
first_row : List Alert × Store → Option Alert × Store
first_row ([], s) = (none, s)
first_row (a ∷ rest, s) = (some a, s)

unfoldable pub resolve_alert_returning : ℕ → ℕ → Store → Option Alert × Store
unfolding resolve first_row is_active
resolve_alert_returning now id s = first_row (resolve_where now (λ a. eqb a.id id && is_active a) s)

unfoldable pub stamp_notified : ℕ → Alert → Alert
stamp_notified now a = record a { notification_sent_at = some now; updated_at = now }

unfoldable pub mark_alert_notification_sent : ℕ → ℕ → Store → Store
mark_alert_notification_sent now id s = record s {
  alerts = update_where (λ a. eqb a.id id) (stamp_notified now) s.alerts;
}

mark_read : ℕ → Alert → Alert
mark_read now a = record a { read_at = coalesce a.read_at now; updated_at = now }

-- The flag is false for ErrNotFound: no row was changed.
unfoldable pub mark_alert_notification_read : ℕ → ℕ → Store → Bool × Store
unfolding mark_read
mark_alert_notification_read now id s = (
  any (λ a. eqb a.id id && is_none a.dismissed_at) s.alerts,
  record s {
    alerts = update_where (λ a. eqb a.id id && is_none a.dismissed_at) (mark_read now) s.alerts;
  },
)

unfoldable pub mark_all_alert_notifications_read : ℕ → Store → Store
unfolding mark_read is_active
mark_all_alert_notifications_read now s = record s {
  alerts = update_where (λ a. is_active a && is_none a.dismissed_at) (mark_read now) s.alerts;
}

unfoldable pub dismiss_alert_notifications : ℕ → Store → Store
dismiss_alert_notifications now s = record s {
  alerts =
      update_where (λ a. is_none a.dismissed_at)
        (λ a. record a {
          dismissed_at = coalesce a.dismissed_at now;
          read_at = coalesce a.read_at now;
          updated_at = now;
        })
        s.alerts;
}

unfoldable pub count_unread_alert_notifications : Store → ℕ
unfolding is_active
count_unread_alert_notifications s =
    length (filter (λ a. is_active a && (is_none a.read_at && is_none a.dismissed_at)) s.alerts)

-- A limit outside 1 to 100 is 50.
abbrev pub page_limit : ℕ → ℕ
page_limit limit = if eqb limit 0 || ltb 100 limit then 50 else limit

unfoldable pub list_pending_alert_notifications : ℕ → Store → List Alert
unfolding is_active
list_pending_alert_notifications limit s = take (page_limit limit) (
    sort_by (λ a b. leb b.last_seen_at a.last_seen_at)
      (filter (λ a. is_active a && is_none a.notification_sent_at) s.alerts))
