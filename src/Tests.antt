-- ===== src/Tests.antt =====
-- Runs on concrete inputs, and the theorems at them.
mod Alerts
mod Offline
mod Cache
mod Refresh
mod Accounts
mod Merging
mod Directory
mod Sessions
mod Codes
mod Networks
mod Paths
mod Cloning
mod Roles
mod Groups
