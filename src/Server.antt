-- ===== src/Server.antt =====
-- The remote matting server, RotoWeaveServer/server.
pub mod Logging
pub mod Queue
pub mod Startup
pub mod Service
