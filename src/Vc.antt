-- ===== src/Vc.antt =====
-- X.25 virtual circuits: libxotpad/src/x25/vc.rs, with its parameters (params.rs).
pub mod Params
pub mod Queue
pub mod Engine
pub mod Handle
pub mod Client
pub mod Run
