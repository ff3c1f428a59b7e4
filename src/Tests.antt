-- ===== src/Tests.antt =====
-- Concrete runs: each theorem of the results applied to an input that meets its hypotheses, over a toy
-- libsodium that meets the documented laws.
mod Toy
mod Wire
mod Text
mod Signaling
mod Relay
mod Registration
mod Session
mod Disk
mod Socket
mod Storage
mod Engine
mod Paths
mod Cli
mod Reports
mod Restart
