-- ===== src/Client/Workspace.antt =====
-- The domain document of a workspace: RotoWeaveClient/backend/app/workspace_repository.py.
pub mod Schema
pub mod Migration
pub mod Mutations
pub mod Commit
pub mod Lists
pub mod Listed
pub mod Removal
pub mod Saved
pub mod Profiles
pub mod Undo
mod Tests
