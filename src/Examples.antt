-- ===== src/Examples.antt =====
-- Small data for the models, with tests on them and the theorems applied to them.
mod Correlation
mod Protocol
mod Coordinator
mod Gateway
mod Submissions
mod Client
