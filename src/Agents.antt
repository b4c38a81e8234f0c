-- ===== src/Agents.antt =====
-- The registry of host agents: domain.Agent of backend/internal/domain/domain.go, and the statements
-- on the table agents in backend/internal/repository/repository.go. The token's hash is computed by
-- the caller, and a row's capabilities are kept as their JSON text.
use kvm_manager.Base.{
  ℕ, ◌+◌, String, Bool, Option, none, some, List, [], ◌∷◌, ◌++◌, ◌==◌, leb, any, if◌then◌else◌,
}
use kvm_manager.Base.Int.{ℤ, pos, pos_part, leb_ℤ}
use kvm_manager.Sql.{update_where, delete_where, find_where}

pub record Agent : Type 0 where
  pub id : String
  pub name : String
  pub endpoint : String
  pub tls_insecure : Bool
  pub status : String
  pub version : String
  pub capabilities : String
  pub last_heartbeat_at : Option ℕ
  pub last_error : String
  pub token_hash : String
  pub token_ciphertext : String
  pub failure_count : ℕ
  pub last_sync_started_at : Option ℕ
  pub last_sync_finished_at : Option ℕ
  pub created_at : ℕ
  pub updated_at : ℕ

unfoldable pub has_id : String → Agent → Bool
has_id id a = a.id == id

-- CreateAgent; `none` is the violation of the unique index on names. The identifier is drawn by the
-- database.
unfoldable pub create_agent :
    ℕ → String → String → String → String → String → Bool → List Agent → Option (List Agent)
create_agent now id name endpoint token_hash token_ciphertext tls_insecure agents =
    if any (λ a. a.name == name) agents then none else some (agents ++ created ∷ [])
  where
    created : Agent
    created = record {
      id = id;
      name = name;
      endpoint = endpoint;
      tls_insecure = tls_insecure;
      status = "unknown";
      version = "";
      capabilities = "[]";
      last_heartbeat_at = none;
      last_error = "";
      token_hash = token_hash;
      token_ciphertext = token_ciphertext;
      failure_count = 0;
      last_sync_started_at = none;
      last_sync_finished_at = none;
      created_at = now;
      updated_at = now;
    }

-- GetAgent; `none` is ErrNotFound.
unfoldable pub get_agent : String → List Agent → Option Agent
get_agent id agents = find_where (has_id id) agents

-- DeleteAgent; the flag is false for ErrNotFound.
unfoldable pub delete_agent : String → List Agent → Bool × List Agent
delete_agent id agents = (any (has_id id) agents, delete_where (has_id id) agents)

unfoldable pub with_health : ℕ → String → String → String → String → Agent → Agent
with_health now status version capabilities last_error a = record a {
  status = status;
  version = version;
  capabilities = capabilities;
  last_error = last_error;
  last_heartbeat_at = if status == "online" then some now else a.last_heartbeat_at;
  updated_at = now;
}

unfoldable pub update_agent_health :
    ℕ → String → String → String → String → String → List Agent → List Agent
update_agent_health now id status version capabilities last_error =
    update_where (has_id id) (with_health now status version capabilities last_error)

unfoldable pub with_sync_started : ℕ → Agent → Agent
with_sync_started now a = record a { last_sync_started_at = some now; updated_at = now }

unfoldable pub mark_agent_sync_started : ℕ → String → List Agent → List Agent
mark_agent_sync_started now id = update_where (has_id id) (with_sync_started now)

unfoldable pub with_success : ℕ → String → String → Agent → Agent
with_success now version capabilities a = record a {
  status = "online";
  version = version;
  capabilities = capabilities;
  last_error = "";
  failure_count = 0;
  last_heartbeat_at = some now;
  last_sync_finished_at = some now;
  updated_at = now;
}

unfoldable pub update_agent_sync_success : ℕ → String → String → String → List Agent → List Agent
update_agent_sync_success now id version capabilities =
    update_where (has_id id) (with_success now version capabilities)

unfoldable pub with_failure : ℕ → String → ℕ → Agent → Agent
with_failure now last_error limit a = record a {
  failure_count = a.failure_count + 1;
  status = if leb limit (a.failure_count + 1) then "offline" else a.status;
  last_error = last_error;
  last_sync_finished_at = some now;
  updated_at = now;
}

-- UpdateAgentSyncFailure
unfoldable pub update_agent_sync_failure : ℕ → String → String → ℤ → List Agent → List Agent
update_agent_sync_failure now id last_error limit =
    update_where (has_id id)
      (with_failure now last_error (if leb_ℤ limit (pos 0) then 3 else pos_part limit))
