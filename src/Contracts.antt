-- ===== src/Contracts.antt =====
-- The contracts that client and server share, RotoWeaveContracts/contracts.
pub mod Protocol
pub mod Hardware
