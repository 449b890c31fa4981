-- ===== src/Server/Keeps.antt =====
-- Each handler keeps the invariant and comes to its end.
pub mod Joining
pub mod Clients
pub mod Departing
pub mod LoggingIn
pub mod Sending
pub mod Leaving
