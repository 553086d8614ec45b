-- ===== src/Audit.antt =====
-- The audit trail: events, the hash chain over them, its seals and its verification.
pub mod Canonical
pub mod Chain
