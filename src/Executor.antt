-- ===== src/Executor.antt =====
-- The executor of internal/runner/executor.go and of internal/runner/action.go: what a step runs (Command,
-- RunStep), the loop over the steps of a job (Jobs, Steps), and what fuel has to do with them (Depth, Ends).
pub mod Command
pub mod RunStep
pub mod Jobs
pub mod Steps
pub mod Ends
pub mod Depth
