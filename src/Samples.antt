-- ===== src/Samples.antt =====
-- The theorems at concrete inputs, by the file that the code is in.
mod Workflows
mod Expressions
mod Queues
mod Polls
mod Files
mod Secrets
mod Runs
mod Steps
mod Daemons
mod Users
