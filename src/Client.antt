-- ===== src/Client.antt =====
-- The command-line client, src/client.
pub mod Traced
pub mod Options
pub mod CommandLine
pub mod Print
pub mod Loops
pub mod Main
pub mod Reading
pub mod Silent
pub mod Exits
pub mod Survival
pub mod Terminating
pub mod Usage
pub mod Input
pub mod Payload
pub mod Peers
pub mod Growth
pub mod Leaks
pub mod Setup
pub mod Sending
pub mod Rounds
pub mod Draining
pub mod Safety
pub mod Answering
pub mod Connecting
pub mod Accepted
pub mod Session
