-- ===== src/Access.antt =====
-- Users, roles and permissions: backend/internal/repository/rbac.go and
-- backend/api/router/rbac.go.
pub mod Permissions
pub mod Users
pub mod Keys
pub mod Roles
pub mod Groups
pub mod Safety
