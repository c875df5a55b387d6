-- ===== src/Commands.antt =====
-- The commands of src-tauri/src: the logic behind them, with no Tauri state.
pub mod Validation
pub mod Tray
pub mod Decision
pub mod Apply
pub mod Exclusive
pub mod Planned
pub mod ProfileIo
pub mod Snapshot
