-- ===== src/Seal.antt =====
-- The document sealing application: apps/seal (the API, the worker, the UI).
pub mod Messages
pub mod Platform
pub mod Config
pub mod Signer
pub mod Worker
pub mod Api
pub mod EndToEnd
pub mod Ui
