-- ===== src/Lib.antt =====
-- The server of kvm-manager: a Go program that manages virtual machines on several hosts. Each host
-- runs an agent. The server reads the agents' hosts and machines (backend/internal/service/realtime),
-- keeps them in a Redis cache, compares them with limits to raise and resolve alerts, sends
-- notifications of alerts over channels (backend/internal/service/notification), runs refreshes as
-- background tasks, checks logins (backend/internal/service/auth), and manages users and their
-- permissions (backend/api/router). Its tables are in PostgreSQL (backend/internal/repository). Of the
-- agent (agent/internal/kvm), which runs virsh on its host, networks and clones are modelled.
--
-- How the parts interact: a schedule or a request puts a refresh task into a queue; the worker claims
-- it and synchronises each agent; a synchronisation writes the cache, tests the limits, changes the
-- alerts and the agent's row, and then has the pending notifications sent.
--
-- The files:
--   Base, Text, Dict, Sql: shared tests, lists, integers, Go's `strings` and maps, SQL statements on
--     lists of rows, and their lemmas.
--   System: the settings of SystemBaseConfig that the modelled code reads.
--   Agents: domain.Agent and the statements on the table agents, in repository.go.
--   Alert: the tables of alerts, deliveries and channels. Table has the statements on alerts, Config
--     the limits in use, Retry the delays of notifications, Delivery the queue of notifications and
--     NotifyDelivery, Samples the counters of samples, Evaluate the tests of evaluateRuntimeAlerts,
--     Notify notifyPendingAlerts.
--   Sync: recordAgentSyncFailure and the end of syncWithToken, in service.go.
--   Runtime: redis_runtime_store.go; Runtime/Lists has the listings.
--   Merge: merge.go and the normalisers of service.go.
--   Tasks: the table tasks; Worker is refresh_worker.go, Schedule is scheduler.go and handleRefresh of
--     backend/api/router/events.go.
--   Login: login_throttle.go and login_failures.go.
--   Access: users and permissions. Permissions has normalizePermissions and hasPermission, Users the
--     statements on users and their roles, Users/Handlers the requests of backend/api/router/rbac.go.
--     Keys and Roles are the keys of roles, the statements and the requests that change them; Groups
--     has those of groups; Safety mixes the requests.
--   Sessions: sessions.go, the local part of auth/service.go, and the login, logout and change of a
--     password in router.go; Gone is a run of such requests.
--   Reset: password_reset.go of the repository and of the router. Email is emailAddressPattern, Tokens
--     the signed tokens, Handlers the requests.
--   Host: the agent, agent/internal/kvm. Words is Go's uint32; Network has the addresses of a network
--     and the loop over them, Network/Cidr reading and writing them, Network/Xml the document of
--     networkXML, all in virsh_network_xml.go. Storage copies and deletes volumes (virsh_pools.go),
--     with what virsh and qemu-img are taken to do in Storage/Documented. Clone is CloneVM
--     (virsh_clone.go) and Clone/Request its checks.
--   Tests: runs on concrete inputs.
--
-- How code becomes definitions: a table is the list of its rows, a statement a function on it, a
-- handler the composition of the statements in its order. Names are those of the code in snake case.
-- Times are numbers of seconds and the clock's reading is an argument. A Go `int` is an integer
-- without limits where its sign matters and a natural number elsewhere. Redis pipelines read one
-- keyspace and change another, the one of the moment when their commands run.
--
-- Every loop of the model is a recursion on a list, so none needs fuel, except `Text.decimal`: a
-- number has fewer digits than its value, which is the fuel; and the loop over the addresses of a
-- network, a count of a uint32 that could wrap: its fuel is one more than the number of addresses, and
-- `Run` has an end of its own for a loop that needs more.
--
-- Left out: the HTTP exchanges with agents and channels (the sending of a message is the parameter
-- `send`), the programs that the agent runs, which are the parameters `Virsh` and `Libvirt`, the text
-- of a clone's XML, JSON texts, database errors (the code ignores most of them), and the parts of the program
-- that are not named above.
pub mod Base
pub mod Text
pub mod Dict
pub mod Sql
pub mod Agents
pub mod Alert
pub mod System
pub mod Login
pub mod Runtime
pub mod Merge
pub mod Tasks
pub mod Sync
pub mod Access
pub mod Sessions
pub mod Reset
pub mod Host
pub mod Tests
