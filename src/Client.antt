-- ===== src/Client.antt =====
-- The program of src/client: a command line, turned into packets, and the server's answers.
pub mod World
pub mod Simple
pub mod Upload
pub mod Download
pub mod Process
pub mod Idle
pub mod Ends
pub mod Loop
pub mod Memory
pub mod Whole
pub mod Tests
