-- ===== src/Tests.antt =====
-- The theorems at concrete requests, settings and services.
pub mod Profile
pub mod Unordered
pub mod Exchange
pub mod Cluster
pub mod Issued
pub mod Trials
pub mod Types
pub mod Settings
pub mod Seaweed
pub mod Transformer
pub mod LlavaProxy
pub mod Models
pub mod Scripts
