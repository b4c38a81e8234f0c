-- ===== src/Tests/Offline.antt =====
-- An agent that fails three times in a row.
use kvm_manager.Base.{
  ℕ, String, refl, true, ◌&&◌, Option, none, List, [], ◌∷◌, arith, leb, all, take, length,
}
use kvm_manager.Alert.{Alert, NotificationChannel}
use kvm_manager.Agents.{get_agent, has_id}
use kvm_manager.Sync.{State, Settings, Answer}
use kvm_manager.Sync.Offline.{IsHealthy, IsMarked, is_failure, sync_all, sync_all_offline}
use kvm_manager.Tests.Alerts.{agent, no_alerts, config, retry}

abbrev send : NotificationChannel → String → Alert → Option String
send channel event alert = none

abbrev settings : Settings
settings = record { config = config; retry = retry; notifier = true }

abbrev start : State
start = record { agents = agent ∷ []; service = no_alerts }

abbrev answers : List (ℕ × Answer)
answers =
    (120, Answer.failure "timeout")
    ∷ (60, Answer.failure "timeout")
    ∷ (0, Answer.failure "timeout")
    ∷ []

healthy : IsHealthy "a1" "h1" start
unfolding get_agent has_id
healthy = record {
  row = agent;
  found = refl;
  named = refl;
  counted = refl;
  reachable = refl;
  quiet = refl;
}

sync_all_offline_example :
    IsMarked
      (leb 3 (length answers) && all is_failure (take 3 answers))
      "a1"
      "h1"
      (sync_all send settings "a1" answers start)
sync_all_offline_example =
    sync_all_offline send settings "a1" "h1" answers start (omega arith) healthy
