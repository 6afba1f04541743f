-- ===== src/Client/Atlas.antt =====
-- The packing of sprites into atlas pages, RotoWeaveClient/backend/app/domain_character_exporter.py.
pub mod Rects
pub mod Free
pub mod Packing
pub mod Slots
pub mod Packs
pub mod Compact
pub mod Caps
mod Tests
