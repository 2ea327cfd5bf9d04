-- ===== src/Controller.antt =====
-- What the four profile controllers of kubeflow/pipelines (sync.py, sync-debug-frontend.py,
-- sync_old.py, sync_new.py) have in common: the settings, the manifests that are the same text in
-- each, the body of `sync` and the webhook. A `Variant` holds what differs.
pub mod Settings
pub mod Manifest
pub mod Sync
pub mod Http
pub mod Inventory
pub mod Desired
pub mod Readiness
pub mod Laws
pub mod Outcome
pub mod Plain
