-- ===== src/Examples.antt =====
-- Concrete runs: each theorem of the development applied to an input that meets its conditions.
pub mod SshRuns
pub mod KeyRuns
pub mod SaveRuns
pub mod PoolRuns
pub mod SecretRuns
pub mod LoginRuns
pub mod PamRuns
pub mod ServiceRuns
pub mod ItemRuns
pub mod DbusRuns
