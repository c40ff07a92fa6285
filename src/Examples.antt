-- ===== src/Examples.antt =====
-- Runs of the model at concrete inputs, and the theorems applied to them.
mod Monitoring
mod Peers
mod Requests
mod Samples
mod Machines
mod Reporting
mod Surroundings
mod Operations
mod Graphsync
