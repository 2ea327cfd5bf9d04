-- ===== src/SyncSeaweed.antt =====
-- kubeflow/pipelines/sync_seaweed.py: a controller that attaches ConfigMaps and a Secret, with
-- credentials that it creates through an IAM client (botocore, an argument here).
pub mod Settings
pub mod Sync
pub mod Laws
pub mod Credentials
pub mod Plain
pub mod Exchange
pub mod Cluster
pub mod Retries
pub mod Isolation
