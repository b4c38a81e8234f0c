-- ===== src/Alert/Evaluate/Streak.antt =====
-- The counters of samples and the alerts of evaluateRuntimeAlerts over a run of samples:
-- backend/internal/service/realtime.
use kvm_manager.Base.{
  ℕ, zero, suc, ◌+◌, ◌≤◌, String, ◌≡◌, ◌≢◌, ◌∙◌, Bool, true, false, ◌&&◌, none, List, [], ◌∷◌,
  arith, eq_refl, eq_iff, leb, all, take, length, if◌then◌else◌,
}
use kvm_manager.Dict.{Dict, get, get-put, get-remove}
use kvm_manager.Agents.{Agent}
use kvm_manager.Alert.{Value}
use kvm_manager.Alert.Samples.{counter_key, or_zero, record_threshold_alert_sample}
use kvm_manager.Alert.Table.Activity.{has_active, same_key, has_active-upsert}
use kvm_manager.Alert.Evaluate.{
  VirtualMachine, Service, host_source_id, host_title, vm_source_id, vm_title, evaluate_sample,
  evaluate_host_threshold_alert, evaluate_vm_threshold_alert,
}
use kvm_manager.Alert.Evaluate.Effects.{has_active-resolve_active_alert}

-- How many samples exceed before the first that does not; samples are listed latest first.
abbrev pub run_length {ℓ} : {A : Type ℓ} → (A → Bool) → List A → ℕ
run_length p [] = 0
run_length p (x ∷ older) = let rest = run_length p older in if p x then suc rest else 0

pub leb-run_length {ℓ} :
    {A : Type ℓ} (p : A → Bool) (n : ℕ) (xs : List A)
    → leb n (run_length p xs) ≡ (leb n (length xs) && all p (take n xs))
leb-run_length p zero xs = ground arith
leb-run_length p (suc n) [] = ground arith
leb-run_length p (suc n) (x ∷ xs) = ground (arith, leb-run_length p n xs)

-- The count of a key and the activity of its alert, as a run of samples leaves them.
record Tracks (source_type source_id title : String) (limit run : ℕ) (s : Service) : Type 0 where
  counted : or_zero (get (counter_key source_type source_id title) s.alert_counts) ≡ run
  raised : has_active source_type source_id title s.store ≡ leb limit run

pub same_key_refl : (a b c : String) → same_key a b c a b c ≡ true
same_key_refl a b c = ground (arith, eq_refl a, eq_refl b, eq_refl c)

module _ (source_type source_id title message : String) (limit : ℕ) (positive : 1 ≤ limit) where
  Tracks-evaluate :
      (now run : ℕ) (exceeded : Bool) (metadata : ℕ → Dict Value) (s : Service)
      → Tracks source_type source_id title limit run s
      → Tracks source_type source_id title limit
          (if exceeded then suc run else 0)
          (evaluate_sample now source_type source_id title exceeded limit message metadata s)
  unfolding evaluate_sample record_threshold_alert_sample
  Tracks-evaluate now run true metadata s t =
      let key = counter_key source_type source_id title in
      let n = or_zero (get key s.alert_counts) in
      record {
        counted = ground (arith, get-put key key (n + 1) s.alert_counts, eq_refl key, t.counted);
        raised = ground (
          arith,
          t.counted,
          t.raised,
          same_key_refl source_type source_id title,
          has_active-upsert source_type source_id title source_type source_id title now "warning"
              message (metadata (n + 1)) s.store,
        );
      }
  Tracks-evaluate now run false metadata s t =
      let key = counter_key source_type source_id title in
      record {
        counted = ground (arith, get-remove key key s.alert_counts, eq_refl key);
        raised = ground (
          arith,
          same_key_refl source_type source_id title,
          has_active-resolve_active_alert source_type source_id title source_type source_id title
              now s.store,
        );
      }

-- The host's samples of one metric, latest first, each with its time.
unfoldable pub observe_host : Agent → String → String → ℕ → ℕ → List (ℕ × ℕ) → Service → Service
observe_host item metric key limit consecutive [] s = s
observe_host item metric key limit consecutive ((now, value) ∷ older) s =
    evaluate_host_threshold_alert now item metric value limit consecutive key
      (observe_host item metric key limit consecutive older s)

-- The machine's samples of one metric, latest first: time, value, and whether it could be measured.
unfoldable pub observe_vm :
    Agent → VirtualMachine → String → String → ℕ → ℕ → List (ℕ × ℕ × Bool) → Service → Service
observe_vm item vm metric key limit consecutive [] s = s
observe_vm item vm metric key limit consecutive ((now, value, available) ∷ older) s =
    evaluate_vm_threshold_alert now item vm metric value available limit consecutive key
      (observe_vm item vm metric key limit consecutive older s)

-- A service that holds neither a count nor an active alert for the key.
pub record IsQuiet (source_type source_id title : String) (s : Service) : Type 0 where
  pub uncounted : get (counter_key source_type source_id title) s.alert_counts ≡ none
  pub inactive : has_active source_type source_id title s.store ≡ false

IsQuiet-Tracks :
    (source_type source_id title : String) (limit : ℕ) (s : Service)
    → 1 ≤ limit
    → IsQuiet source_type source_id title s
    → Tracks source_type source_id title limit 0 s
IsQuiet-Tracks source_type source_id title limit s positive q = record {
  counted = ground (arith, q.uncounted);
  raised = ground (arith, q.inactive);
}

module _ (item : Agent) (metric key : String) (limit consecutive : ℕ)
    (positive : 1 ≤ consecutive) where
  host_Tracks :
      (samples : List (ℕ × ℕ)) (s : Service)
      → Tracks "host" (host_source_id item key) (host_title metric) consecutive 0 s
      → Tracks "host"
          (host_source_id item key)
          (host_title metric)
          consecutive
          (run_length (λ x. leb limit x.1) samples)
          (observe_host item metric key limit consecutive samples s)
  unfolding observe_host evaluate_host_threshold_alert
  host_Tracks [] s t = t
  host_Tracks ((now, value) ∷ older) s t =
      Tracks-evaluate "host" (host_source_id item key) (host_title metric) _ consecutive positive
        now (run_length (λ x. leb limit x.1) older) (leb limit value) _
        (observe_host item metric key limit consecutive older s) (host_Tracks older s t)

  -- From a quiet start, a host's threshold alert is active exactly when there are at least as many
  -- samples as the consecutive limit, which is positive, and the last so many all reached the
  -- threshold.
  pub host_alert_after_streak :
      (samples : List (ℕ × ℕ)) (s : Service)
      → IsQuiet "host" (host_source_id item key) (host_title metric) s
      → has_active "host"
          (host_source_id item key)
          (host_title metric)
          (observe_host item metric key limit consecutive samples s).store
        ≡ (leb consecutive (length samples) && all (λ x. leb limit x.1) (take consecutive samples))
  host_alert_after_streak samples s q =
      (host_Tracks samples s (IsQuiet-Tracks _ _ _ consecutive s positive q)).raised
      ∙ leb-run_length (λ x. leb limit x.1) consecutive samples

module _ (item : Agent) (vm : VirtualMachine) (metric key : String) (limit consecutive : ℕ)
    (positive : 1 ≤ consecutive) where
  vm_Tracks :
      (samples : List (ℕ × ℕ × Bool)) (s : Service)
      → Tracks "virtual_machine" (vm_source_id vm key) (vm_title metric) consecutive 0 s
      → Tracks "virtual_machine"
          (vm_source_id vm key)
          (vm_title metric)
          consecutive
          (run_length (λ x. x.2 && leb limit x.1) samples)
          (observe_vm item vm metric key limit consecutive samples s)
  unfolding observe_vm evaluate_vm_threshold_alert
  vm_Tracks [] s t = t
  vm_Tracks ((now, value, available) ∷ older) s t =
      Tracks-evaluate "virtual_machine" (vm_source_id vm key) (vm_title metric) _ consecutive
        positive now (run_length (λ x. x.2 && leb limit x.1) older) (available && leb limit value) _
        (observe_vm item vm metric key limit consecutive older s) (vm_Tracks older s t)

  -- From a quiet start, a machine's threshold alert is active exactly when there are at least as many
  -- samples as the consecutive limit, which is positive, and the last so many were all measured and
  -- reached the threshold: a sample that could not be measured ends the streak and the alert.
  pub vm_alert_after_streak :
      (samples : List (ℕ × ℕ × Bool)) (s : Service)
      → IsQuiet "virtual_machine" (vm_source_id vm key) (vm_title metric) s
      → has_active "virtual_machine"
          (vm_source_id vm key)
          (vm_title metric)
          (observe_vm item vm metric key limit consecutive samples s).store
        ≡ (leb consecutive (length samples)
            && all (λ x. x.2 && leb limit x.1) (take consecutive samples))
  vm_alert_after_streak samples s q =
      (vm_Tracks samples s (IsQuiet-Tracks _ _ _ consecutive s positive q)).raised
      ∙ leb-run_length (λ x. x.2 && leb limit x.1) consecutive samples

-- A sample for one key leaves the count and the alert of another key as they were, if the texts under
-- which the two keys are counted, their parts joined by bars, differ too.
pub evaluate_sample_other :
    (source_type source_id title message : String) (limit now : ℕ) (exceeded : Bool)
    (metadata : ℕ → Dict Value) (s : Service) (source_type' source_id' title' : String)
    → same_key source_type source_id title source_type' source_id' title' ≡ false
    → counter_key source_type source_id title ≢ counter_key source_type' source_id' title'
    → let s' = evaluate_sample now source_type source_id title exceeded limit message metadata s in
      (get (counter_key source_type' source_id' title') s'.alert_counts
        ≡ get (counter_key source_type' source_id' title') s.alert_counts)
      × (has_active source_type' source_id' title' s'.store
          ≡ has_active source_type' source_id' title' s.store)
unfolding evaluate_sample record_threshold_alert_sample
evaluate_sample_other source_type source_id title message limit now exceeded metadata s source_type'
      source_id' title' other apart =
    let key = counter_key source_type source_id title in
    let key' = counter_key source_type' source_id' title' in
    let n = or_zero (get key s.alert_counts) in
    (
      ground (
        arith,
        get-put key key' (n + 1) s.alert_counts,
        get-remove key key' s.alert_counts,
        eq_iff key key',
      ),
      ground (
        arith,
        has_active-upsert source_type source_id title source_type' source_id' title' now "warning"
            message (metadata (n + 1)) s.store,
        has_active-resolve_active_alert source_type source_id title source_type' source_id' title'
            now s.store,
      ),
    )
