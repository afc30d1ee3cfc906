-- ===== src/Tests.antt =====
-- A small library to run the model on, and the theorems applied to it.
pub mod Toy
mod Messages
mod Sockets
mod Clients
mod Runs
pub mod Accepted
mod Exchange
mod Programs
mod Peers
mod Values
mod Choices
