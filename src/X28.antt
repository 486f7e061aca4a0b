-- ===== src/X28.antt =====
-- What a user types to the PAD, and what it prints: src/x28/.
pub mod Text
pub mod Selection
pub mod Command
pub mod Signal
