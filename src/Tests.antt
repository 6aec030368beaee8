-- ===== src/Tests.antt =====
-- Runs of the model on small inputs, and the theorems at concrete inputs.
mod Stores
mod Inputs
mod Clients
mod Pipes
mod Systems
mod Memories
