-- ===== src/Sync.antt =====
-- What a synchronisation leaves in the tables: recordAgentSyncFailure, and the end of syncWithToken,
-- of backend/internal/service/realtime/service.go. The answers of the agent are its input; the cache
-- is left out here. Every statement reaches the database.
pub mod Quiet
pub mod Offline
use kvm_manager.Base.{
  ℕ, ◌+◌, String, Bool, true, false, Option, none, some, List, [], ◌∷◌, ltb, if◌then◌else◌,
}
use kvm_manager.Base.Int.{pos}
use kvm_manager.Text.{◌<>◌}
use kvm_manager.Agents.{
  Agent, get_agent, mark_agent_sync_started, update_agent_sync_success, update_agent_sync_failure,
}
use kvm_manager.Alert.{Value, text, number, Alert, NotificationChannel, Store}
use kvm_manager.Alert.Config.{AlertRuntimeConfig}
use kvm_manager.Alert.Retry.{AlertNotificationRetryConfig}
use kvm_manager.Alert.Table.{upsert_active_alert}
use kvm_manager.Alert.Evaluate.{
  Host, VirtualMachine, Service, evaluate_runtime_alerts, resolve_active_alerts_by_source,
}
use kvm_manager.Alert.Notify.{notify_pending_alerts}

pub record State : Type 0 where
  pub agents : List Agent
  pub service : Service

-- What stays the same from one synchronisation to the next.
pub record Settings : Type 0 where
  pub config : AlertRuntimeConfig
  pub retry : AlertNotificationRetryConfig
  pub notifier : Bool

-- How the agent answers: an error, or what a synchronisation reads from it.
pub data Answer : Type 0 where
  failure : String → Answer
  success : String → String → Host → List VirtualMachine → Answer

abbrev pub offline_title : String → String
offline_title name = "Agent " <> name <> " 离线"

unfoldable pub with_store : (Store → Store) → Service → Service
with_store f v = record v { store = f v.store }

module _ (send : NotificationChannel → String → Alert → Option String) (settings : Settings) where
  unfoldable pub notify : ℕ → Store → Store
  notify now = notify_pending_alerts send settings.notifier now settings.config settings.retry

  unfoldable pub record_agent_sync_failure : ℕ → Agent → String → State → State
  record_agent_sync_failure now item message s =
      let limit = settings.config.offline_failure_limit in
      let raise : Store → Store =
        upsert_active_alert now "critical" "agent" item.id (offline_title item.name)
          "连续同步失败，Agent 已标记为离线"
          (("agent", text item.name)
            ∷ ("endpoint", text item.endpoint)
            ∷ ("lastError", text message)
            ∷ ("failureCount", number (item.failure_count + 1))
            ∷ []) in
      record {
        agents = update_agent_sync_failure now item.id message (pos limit) s.agents;
        service =
            if ltb (item.failure_count + 1) limit
            then s.service
            else with_store (λ t. notify now (raise t)) s.service;
      }

  -- The end of syncWithToken, once the cache holds what was read.
  unfoldable pub finish_sync :
      ℕ → Agent → String → String → Host → List VirtualMachine → State → State
  finish_sync now item version capabilities host vms s =
      let evaluated = evaluate_runtime_alerts now settings.config item host vms s.service in
      record {
        agents = update_agent_sync_success now item.id version capabilities s.agents;
        service =
            with_store
              (λ t. notify now (resolve_active_alerts_by_source now "agent" item.id (notify now t)))
              evaluated;
      }

  unfoldable pub sync_with_token : ℕ → Agent → Answer → State → State
  sync_with_token now item (Answer.failure message) s =
      record_agent_sync_failure now item message
        (record s { agents = mark_agent_sync_started now item.id s.agents })
  sync_with_token now item (Answer.success version capabilities host vms) s =
      finish_sync now item version capabilities host vms
        (record s { agents = mark_agent_sync_started now item.id s.agents })

  -- SyncAgentWithTokenMode
  unfoldable pub sync_agent : ℕ → String → Answer → State → State
  sync_agent now id answer s = elim (get_agent id s.agents) [
    | none ↦ s
    | some item ↦ sync_with_token now item answer s
  ]
