-- ===== src/Engine.antt =====
-- internal/engine/engine.go: the supervisor, which wires the parts together.
pub mod State
pub mod Setup
pub mod Startup
pub mod Decide
pub mod Trade
pub mod Loop
pub mod Source
pub mod Halted
pub mod Kept
pub mod Executing
pub mod Guards
