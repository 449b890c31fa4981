-- ===== src/Server.antt =====
-- internal/server/server.go: the goroutine of `Run`, which takes one event at a time.
pub mod Replies
pub mod Login
pub mod Membership
pub mod Messages
pub mod Clients
pub mod Run
pub mod Invariant
pub mod Steps
pub mod Keeps
pub mod Events
pub mod Reachable
pub mod Delivery
pub mod Refusals
pub mod Stalls
pub mod Admission
pub mod Recipients
pub mod Order
pub mod Effects
pub mod Chat
pub mod Refinement
pub mod Logins
pub mod Who
pub mod Online
pub mod Answers
