-- ===== src/Tests.antt =====
-- Runs of the programs on concrete data, and the theorems at concrete inputs.
pub mod Data
mod Server
mod Utils
mod Others
mod Multiproc
mod Container
mod Old
mod Threads
mod Sharing
mod Readers
