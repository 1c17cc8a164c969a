-- ===== src/E2ee.antt =====
-- frontend/src/e2ee.ts: the end-to-end encryption boundary.
pub mod Base64
pub mod ReplayCache
pub mod Envelope
pub mod AesGcm
pub mod Names
