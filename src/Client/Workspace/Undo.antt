-- ===== src/Client/Workspace/Undo.antt =====
-- Deletions that take back the creation before them (RotoWeaveClient/backend/app/workspace_repository.py).
pub mod Sources
pub mod Actions
