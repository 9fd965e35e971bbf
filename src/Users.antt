-- ===== src/Users.antt =====
-- backend/internal/users: who may do what.
pub mod Store
pub mod Permissions
