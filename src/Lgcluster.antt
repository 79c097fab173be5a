-- ===== src/Lgcluster.antt =====
-- lgcluster/: how a gateway finds the logic servers.
pub mod Cluster
pub mod Proxy
