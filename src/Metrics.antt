-- ===== src/Metrics.antt =====
-- shell-operator/pkg/metric_storage: metric operations that hooks write, and the grouped vault
-- that keeps the metrics of each group.
pub mod Operation
pub mod Vault
pub mod Storage
pub mod Vectors
mod Tests
