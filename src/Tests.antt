-- ===== src/Tests.antt =====
-- The theorems at concrete inputs, and runs of the definitions.
mod Samples
mod Flushes
mod Systems
mod Guards
mod Servers
mod Readers
mod Sidecars
mod Tokens
mod Trained
mod Watches
mod Processes
mod Served
mod Refusals
mod Loads
mod Endings
mod Registries
mod Interleavings
