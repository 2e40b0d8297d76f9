-- ===== src/App.antt =====
-- cmd/abb/main.go: how the parts are put together.
pub mod Save
pub mod Start
pub mod Again
pub mod Pipeline
pub mod Threads
pub mod Loop
pub mod Receive
pub mod Wiring
