-- ===== src/Server/Steps.antt =====
-- How the single writes of the handlers act on the invariant.
pub mod Enroll
pub mod Detach
pub mod Attach
pub mod Depart
pub mod Valid
pub mod Sends
pub mod Frame
pub mod Registry
