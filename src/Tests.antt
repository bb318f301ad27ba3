-- ===== src/Tests.antt =====
-- Runs of the modelled code on small inputs, and the theorems applied at them.
pub mod LockRuns
pub mod TxnRuns
pub mod TableRuns
pub mod AllocRuns
pub mod KeyRuns
pub mod ClusterRuns
pub mod LogRuns
pub mod BloomRuns
pub mod SagaRuns
pub mod ShardRuns
pub mod GatewayRuns
pub mod ReplicationRuns
pub mod ValueRuns
pub mod RingRuns
pub mod RaftRuns
