-- ===== src/Tests.antt =====
-- Runs of the models on small inputs, and each theorem applied at a concrete input.
mod Samples
mod Backend
mod Ledger
mod Mempool
mod Node
mod Chain
mod Restart
mod Api
mod Bridge
mod Network
mod Server
mod Loadgen
mod Genkeys
mod Startup
