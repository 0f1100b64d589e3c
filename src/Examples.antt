-- ===== src/Examples.antt =====
-- The theorems at concrete inputs.
pub mod ConditionData
pub mod ConditionRuns
pub mod MachineData
pub mod MachineRuns
pub mod ControlPlaneRuns
pub mod LockingRuns
pub mod VersionRuns
pub mod WorkloadRuns
pub mod AdmissionRuns
pub mod ReconcileRuns
pub mod BootstrapRuns
pub mod FilterRuns
