-- ===== src/UserPad.antt =====
-- The user's side of a PAD: src/user_pad.rs.
pub mod CommandLine
pub mod Parameters
pub mod Calls
pub mod Session
