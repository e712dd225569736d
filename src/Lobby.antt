-- ===== src/Lobby.antt =====
-- Lobbies and matches: internal/lobby.
pub mod Settings
pub mod History
pub mod Match
pub mod Command
pub mod Replay
pub mod Service
pub mod Restore
pub mod Tests
