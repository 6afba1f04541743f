-- ===== src/Client.antt =====
-- The client's local application (RotoWeaveClient/backend/app).
pub mod Runtime
pub mod Atlas
pub mod Workspace
