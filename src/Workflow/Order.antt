-- ===== src/Workflow/Order.antt =====
-- BuildExecutionOrder of internal/runner/workflow.go: its loops, and what its results mean.
pub mod Degrees
pub mod Setup
pub mod Pending
pub mod Waves
pub mod Loop
pub mod Sound
pub mod Unknown
pub mod Results
