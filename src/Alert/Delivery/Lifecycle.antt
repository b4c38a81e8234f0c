-- ===== src/Alert/Delivery/Lifecycle.antt =====
-- What becomes of a delivery: an attempt's outcome, the retries, and its requeueing.
use mathlib.Core.Bool.{false≢true}
use kvm_manager.Base.{
  ℕ, suc, ◌+◌, String, ◌≡◌, refl, sym, ap, Bool, true, false, ◌&&◌, ◌||◌, not, ◌∙◌, List, [], ◌∷◌,
  arith, ◌==◌, eq_iff, Bool-cases, inl, inr, any, if◌then◌else◌,
}
use kvm_manager.Base.Int.{pos, leb_ℤ}
use kvm_manager.Alert.{Alert, NotificationChannel, AlertNotificationDelivery, Store}
use kvm_manager.Alert.Retry.{AlertNotificationRetryConfig}
use kvm_manager.Alert.Table.{mark_alert_notification_sent}
use kvm_manager.Sql.Rows.{
  any-append, any_and, any-update_where_absent, any-update_where_none, any-update_where_kept,
}
use kvm_manager.Alert.Delivery.{
  same_delivery, requeue, new_delivery, put_delivery, is_wanted, put_deliveries,
  ensure_alert_notification_deliveries, mark_failed,
}

-- A row of this key that has used up its attempts.
abbrev pub has_failed : ℕ → String → String → List AlertNotificationDelivery → Bool
has_failed alert_id event_type channel_id ds =
    any (λ d. same_delivery alert_id event_type channel_id d && d.status == "failed") ds

-- A row of this key that waits for an attempt.
abbrev pub has_pending : ℕ → String → String → List AlertNotificationDelivery → Bool
has_pending alert_id event_type channel_id ds =
    any (λ d. same_delivery alert_id event_type channel_id d && d.status == "pending") ds

-- The row after a number of failed attempts, all under one configuration.
unfoldable pub fail_times :
    List (ℕ × String)
    → AlertNotificationRetryConfig
    → AlertNotificationDelivery
    → AlertNotificationDelivery
fail_times [] config d = d
fail_times ((now, message) ∷ rest) config d =
    fail_times rest config (mark_failed now message config d)

abbrev count_of : List (ℕ × String) → ℕ
count_of [] = 0
count_of (x ∷ rest) = suc (count_of rest)

fail_times_count :
    (attempts : List (ℕ × String)) (config : AlertNotificationRetryConfig)
    (d : AlertNotificationDelivery)
    → (fail_times attempts config d).retry_count ≡ d.retry_count + count_of attempts
unfolding fail_times mark_failed
fail_times_count [] config d = omega arith
fail_times_count ((now, message) ∷ rest) config d =
    omega (arith, fail_times_count rest config (mark_failed now message config d))

-- After one or more failed attempts, a delivery has given up exactly when its attempts have reached
-- the largest retry count, and is pending otherwise; each attempt was counted.
pub fail_times_status :
    (now : ℕ) (message : String) (rest : List (ℕ × String)) (config : AlertNotificationRetryConfig)
    (d : AlertNotificationDelivery)
    → ((fail_times ((now, message) ∷ rest) config d).status ≡ (
        if leb_ℤ config.max_retry_count (pos (d.retry_count + 1 + count_of rest))
        then "failed"
        else "pending"))
      × ((fail_times ((now, message) ∷ rest) config d).retry_count
          ≡ d.retry_count + 1 + count_of rest)
unfolding fail_times mark_failed
fail_times_status now message [] config d = (ground arith, ground arith)
fail_times_status now message ((now', message') ∷ rest) config d =
    let d' = mark_failed now message config d in
    let ih = fail_times_status now' message' rest config d' in
    (ground (arith, ih.0), ground (arith, ih.1))

module _ (alert_id : ℕ) (event_type channel_id : String) where
  abbrev failed : AlertNotificationDelivery → Bool
  failed d = same_delivery alert_id event_type channel_id d && d.status == "failed"

  failed-requeue : (now : ℕ) (d : AlertNotificationDelivery) → failed (requeue now d) ≡ false
  unfolding requeue
  failed-requeue now d = ground arith

  failed-new :
      (id now alert_id' : ℕ) (event_type' channel_id' : String)
      → failed (new_delivery id now alert_id' event_type' channel_id') ≡ false
  unfolding new_delivery
  failed-new id now alert_id' event_type' channel_id' = ground arith

  has_failed-put_self :
      (now : ℕ) (s : Store)
      → any failed (put_delivery now alert_id event_type channel_id s).deliveries ≡ false
  unfolding put_delivery
  has_failed-put_self now s =
      elim (Bool-cases (any (same_delivery alert_id event_type channel_id) s.deliveries)) [
        | inl old ↦
            rw (old, put_delivery)
              (any-update_where_none failed failed (requeue now) (λ d _. failed-requeue now d)
                (λ d h. h) s.deliveries)
        | inr new ↦
            rw (new, put_delivery)
              (ground (
                arith,
                any-append failed s.deliveries
                    (new_delivery s.next_delivery now alert_id event_type channel_id ∷ []),
                failed-new s.next_delivery now alert_id event_type channel_id,
                any_and (same_delivery alert_id event_type channel_id) (λ d. d.status == "failed")
                    s.deliveries new,
              ))
      ]

  has_failed-put :
      (now alert_id' : ℕ) (event_type' channel_id' : String) (s : Store)
      → any failed s.deliveries ≡ false
      → any failed (put_delivery now alert_id' event_type' channel_id' s).deliveries ≡ false
  unfolding put_delivery
  has_failed-put now alert_id' event_type' channel_id' s h =
      elim (Bool-cases (any (same_delivery alert_id' event_type' channel_id') s.deliveries)) [
        | inl old ↦
            rw (old, put_delivery)
              (any-update_where_absent
                (λ d. same_delivery alert_id' event_type' channel_id' d && d.status == "failed")
                failed (requeue now) (failed-requeue now) s.deliveries h)
        | inr new ↦
            rw (new, put_delivery)
              (ground (
                arith,
                any-append failed s.deliveries
                    (new_delivery s.next_delivery now alert_id' event_type' channel_id' ∷ []),
                failed-new s.next_delivery now alert_id' event_type' channel_id',
              ))
      ]

  has_failed-puts :
      (now : ℕ) (cs : List NotificationChannel) (s : Store)
      → any failed s.deliveries ≡ false
      → any failed (put_deliveries now alert_id event_type cs s).deliveries ≡ false
  unfolding put_deliveries
  has_failed-puts now [] s h = h
  has_failed-puts now (c ∷ cs) s h = elim (Bool-cases (is_wanted event_type c)) [
    | inl wanted ↦
        rw (wanted, put_deliveries)
          (has_failed-puts now cs (put_delivery now alert_id event_type c.id s)
            (has_failed-put now alert_id event_type c.id s h))
    | inr skipped ↦ rw (skipped, put_deliveries) (has_failed-puts now cs s h)
  ]

-- A channel of the list that takes the event.
abbrev pub takes : String → String → List NotificationChannel → Bool
takes event_type channel_id cs = any (λ c. c.id == channel_id && is_wanted event_type c) cs

puts_revive :
    (now alert_id : ℕ) (event_type channel_id : String) (cs : List NotificationChannel) (s : Store)
    → takes event_type channel_id cs ≡ true
    → has_failed alert_id event_type channel_id
        (put_deliveries now alert_id event_type cs s).deliveries
      ≡ false
unfolding put_deliveries
puts_revive now alert_id event_type channel_id [] s h = absurd (false≢true h)
puts_revive now alert_id event_type channel_id (c ∷ cs) s h =
    elim (Bool-cases (c.id == channel_id && is_wanted event_type c)) [
      | inl here ↦
          let e : channel_id ≡ c.id = sym ((eq_iff c.id channel_id).0 (ground arith)) in
          let wanted : is_wanted event_type c ≡ true = ground arith in
          rw (wanted, put_deliveries)
            (has_failed-puts alert_id event_type channel_id now cs
              (put_delivery now alert_id event_type c.id s)
              (rw e (has_failed-put_self alert_id event_type c.id now s)))
      | inr later ↦ puts_revive now alert_id event_type channel_id cs _ (ground arith)
    ]

deliveries-mark_notified :
    (now id : ℕ) (s : Store) → (mark_alert_notification_sent now id s).deliveries ≡ s.deliveries
unfolding mark_alert_notification_sent
deliveries-mark_notified now id s = refl

deliveries-ensure :
    (now : ℕ) (a : Alert) (event_type : String) (s : Store)
    → (ensure_alert_notification_deliveries now a event_type s).deliveries
      ≡ (put_deliveries now a.id event_type s.channels s).deliveries
unfolding ensure_alert_notification_deliveries
deliveries-ensure now a event_type s =
    elim (Bool-cases (not (any (is_wanted event_type) s.channels) && event_type == "problem")) [
      | inl e ↦
          rw (e, ensure_alert_notification_deliveries)
            (deliveries-mark_notified now a.id (put_deliveries now a.id event_type s.channels s))
      | inr e ↦ rw (e, ensure_alert_notification_deliveries) refl
    ]

module _ (alert_id : ℕ) (event_type channel_id : String) where
  -- A row that has used up its attempts, or waits for one.
  abbrev unsent : AlertNotificationDelivery → Bool
  unsent d =
      same_delivery alert_id event_type channel_id d
      && (d.status == "failed" || d.status == "pending")

  unsent-put :
      (now alert_id' : ℕ) (event_type' channel_id' : String) (s : Store)
      → any unsent s.deliveries ≡ true
      → any unsent (put_delivery now alert_id' event_type' channel_id' s).deliveries ≡ true
  unfolding put_delivery requeue same_delivery
  unsent-put now alert_id' event_type' channel_id' s h =
      elim (Bool-cases (any (same_delivery alert_id' event_type' channel_id') s.deliveries)) [
        | inl old ↦
            rw (old, put_delivery)
              (any-update_where_kept
                (λ d. same_delivery alert_id' event_type' channel_id' d && d.status == "failed")
                unsent (requeue now) (λ d _ k. ground (arith, k)) s.deliveries h)
        | inr new ↦
            rw (new, put_delivery)
              (ground (
                arith,
                any-append unsent s.deliveries
                    (new_delivery s.next_delivery now alert_id' event_type' channel_id' ∷ []),
              ))
      ]

  unsent-puts :
      (now : ℕ) (cs : List NotificationChannel) (s : Store)
      → any unsent s.deliveries ≡ true
      → any unsent (put_deliveries now alert_id event_type cs s).deliveries ≡ true
  unfolding put_deliveries
  unsent-puts now [] s h = h
  unsent-puts now (c ∷ cs) s h = elim (Bool-cases (is_wanted event_type c)) [
    | inl wanted ↦
        rw (wanted, put_deliveries)
          (unsent-puts now cs (put_delivery now alert_id event_type c.id s)
            (unsent-put now alert_id event_type c.id s h))
    | inr skipped ↦ rw (skipped, put_deliveries) (unsent-puts now cs s h)
  ]

  unsent_of_failed :
      (ds : List AlertNotificationDelivery)
      → has_failed alert_id event_type channel_id ds ≡ true
      → any unsent ds ≡ true
  unsent_of_failed [] h = h
  unsent_of_failed (d ∷ ds) h = ground (arith, unsent_of_failed ds)

  pending_of_unsent :
      (ds : List AlertNotificationDelivery)
      → any unsent ds ≡ true
      → has_failed alert_id event_type channel_id ds ≡ false
      → has_pending alert_id event_type channel_id ds ≡ true
  pending_of_unsent [] h k = h
  pending_of_unsent (d ∷ ds) h k = ground (arith, pending_of_unsent ds)

-- Queueing an alert's notifications leaves no delivery of it in the state "failed" on any channel
-- that takes the event; if one there was "failed", one there is "pending" afterwards.
pub ensure_revives :
    (now : ℕ) (a : Alert) (event_type channel_id : String) (s : Store)
    → takes event_type channel_id s.channels ≡ true
    → let s' = ensure_alert_notification_deliveries now a event_type s in
      (has_failed a.id event_type channel_id s'.deliveries ≡ false)
      × (has_failed a.id event_type channel_id s.deliveries ≡ true
          → has_pending a.id event_type channel_id s'.deliveries ≡ true)
ensure_revives now a event_type channel_id s h =
    let queued = put_deliveries now a.id event_type s.channels s in
    let cleared = puts_revive now a.id event_type channel_id s.channels s h in
    let same = deliveries-ensure now a event_type s in
    (
      ap (has_failed a.id event_type channel_id) same ∙ cleared,
      λ k.
          ap (has_pending a.id event_type channel_id) same
          ∙ pending_of_unsent a.id event_type channel_id queued.deliveries
              (unsent-puts a.id event_type channel_id now s.channels s
                (unsent_of_failed a.id event_type channel_id s.deliveries k))
              cleared,
    )
