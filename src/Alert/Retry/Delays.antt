-- ===== src/Alert/Retry/Delays.antt =====
-- Retry settings and delays: what they are bounded by, and that the delay in the SQL statement is
-- the one that the Go function computes.
use Prim.Native.Nat.{min}
use native.Mathlib.Nat.{pow-suc}
use kvm_manager.Base.{ℕ, zero, suc, ◌+◌, ◌*◌, ◌^◌, ◌≤◌, ◌≡◌, refl, arith}
use kvm_manager.Base.Int.{ℤ, pos, pos_part, ◌≤ℤ◌, parts_lem}
use kvm_manager.Alert.Retry.{
  AlertNotificationRetryConfig, normalize_alert_notification_retry_config, IsNormal,
  alert_notification_retry_delay_with_config, sql_retry_delay, exponent, capped,
}

-- Each normalised setting lies in its range (0 to 10 retries, a base delay of 10 to 300 seconds, a
-- longest delay of 1 to 120 minutes), and the longest delay is no shorter than the base delay.
pub normalize-IsNormal :
    (c : AlertNotificationRetryConfig) → IsNormal (normalize_alert_notification_retry_config c)
unfolding normalize_alert_notification_retry_config
normalize-IsNormal c = ground arith

-- Normalising a second time changes nothing.
normalize_idem :
    (c : AlertNotificationRetryConfig)
    → normalize_alert_notification_retry_config (normalize_alert_notification_retry_config c)
      ≡ normalize_alert_notification_retry_config c
unfolding normalize_alert_notification_retry_config
normalize_idem c = ground arith

exponent_suc : (n : ℕ) → exponent (pos (n + 1)) ≡ min (n + 1) 8
exponent_suc n = ground arith

capped-min : (a b : ℕ) → capped a b ≡ min b a
capped-min a b = ground arith

-- The delay that the database computes from a row's retry_count before the attempt is the delay that
-- AlertNotificationRetryDelayWithConfig gives for the count after it.
pub sql_retry_delay_lem :
    (n : ℕ) (c : AlertNotificationRetryConfig)
    → sql_retry_delay n (normalize_alert_notification_retry_config c)
      ≡ alert_notification_retry_delay_with_config (pos (n + 1)) c
unfolding sql_retry_delay alert_notification_retry_delay_with_config
sql_retry_delay_lem n c = rw (exponent_suc n, capped-min) refl

one-le-pow : (k : ℕ) → 1 ≤ 2 ^ k
one-le-pow zero = omega arith
one-le-pow (suc k) = omega (arith, one-le-pow k, pow-suc 2 k)

pow_mono : (j k : ℕ) → j ≤ k → 2 ^ j ≤ 2 ^ k
pow_mono zero k h = one-le-pow k
pow_mono (suc j) zero h = absurd (omega arith)
pow_mono (suc j) (suc k) h = omega (arith, pow_mono j k (omega arith), pow-suc 2 j, pow-suc 2 k)

capped_bounds :
    (power base longest : ℕ)
    → 1 ≤ power
    → base ≤ longest
    → (base ≤ capped (power * base) longest) × (capped (power * base) longest ≤ longest)
capped_bounds power base longest p h = grind arith

-- For every retry count and every stored configuration the delay is at least the base delay in use
-- and at most the longest delay in use, and these lie between 10 seconds and two hours.
pub retry_delay_bounds :
    (n : ℤ) (c : AlertNotificationRetryConfig)
    → let d = normalize_alert_notification_retry_config c in
      let delay = alert_notification_retry_delay_with_config n c in
      (pos_part d.base_delay_seconds ≤ delay)
      × (delay ≤ pos_part d.max_delay_minutes * 60)
      × (10 ≤ pos_part d.base_delay_seconds)
      × (pos_part d.max_delay_minutes * 60 ≤ 7200)
unfolding alert_notification_retry_delay_with_config
retry_delay_bounds n c =
    let v = normalize-IsNormal c in
    let d = normalize_alert_notification_retry_config c in
    let b =
      capped_bounds (2 ^ exponent n) (pos_part d.base_delay_seconds)
        (pos_part d.max_delay_minutes * 60) (one-le-pow (exponent n)) v.room in
    (
      b.0,
      b.1,
      omega (arith, v.base_low),
      omega (arith, v.longest_high, parts_lem d.max_delay_minutes),
    )

exponent_mono : (m n : ℤ) → m ≤ℤ n → exponent m ≤ exponent n
exponent_mono m n h = ground arith

capped_mono : (p q base longest : ℕ) → p ≤ q → capped (p * base) longest ≤ capped (q * base) longest
capped_mono p q base longest h = grind arith

-- A later attempt never waits less than an earlier one.
pub retry_delay_mono :
    (m n : ℤ) (c : AlertNotificationRetryConfig)
    → m ≤ℤ n
    → alert_notification_retry_delay_with_config m c
      ≤ alert_notification_retry_delay_with_config n c
unfolding alert_notification_retry_delay_with_config
retry_delay_mono m n c h =
    let d = normalize_alert_notification_retry_config c in
    capped_mono (2 ^ exponent m) (2 ^ exponent n) (pos_part d.base_delay_seconds)
      (pos_part d.max_delay_minutes * 60) (pow_mono (exponent m) (exponent n) (exponent_mono m n h))
