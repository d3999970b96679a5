-- ===== src/EndToEnd.antt =====
-- The client of src/client and the server of src/server on the two ends of a connection.
pub mod Arrival
pub mod Upload
pub mod Download
pub mod Command
pub mod Receive
pub mod Interrupted
pub mod Store
pub mod Broken
pub mod Session
pub mod Resume
pub mod Unmapped
pub mod Fetch
pub mod Partly
pub mod Lost
pub mod Give
pub mod Retrieval
pub mod Refetch
pub mod Tests
