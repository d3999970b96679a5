-- ===== src/Server.antt =====
-- The server of src/server.
pub mod Path
pub mod Queue
pub mod Pool
pub mod Main
pub mod World
pub mod Reply
pub mod Effect
pub mod Commands
pub mod Upload
pub mod Download
pub mod Request
pub mod Memory
pub mod Tests
