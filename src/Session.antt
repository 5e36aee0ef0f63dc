-- ===== src/Session.antt =====
-- session.rs: tag history, sequence map, and the command loop. A turn of the loop is one branch of its
-- `select!`, with the times that its two checks read and the outcome of a TLS handshake.
pub mod Tags
pub mod Sequence
pub mod Lines
pub mod Commands
pub mod Turns
pub mod Answers
pub mod Access
pub mod Isolation
pub mod OtherUsers
pub mod Server
pub mod Logins
pub mod Entering
