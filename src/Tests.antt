-- ===== src/Tests.antt =====
-- Sample inputs, runs of the code on them, and the theorems at inputs that meet their hypotheses.
mod Samples
mod Graphs
mod Plans
mod Backlog
mod Policies
mod Handler
mod Coordinator
mod Runner
mod Planning
mod Domain
mod Reports
mod Provisioning
