-- ===== src/Mfs.antt =====
-- The file server of p5/MFS: server.c and server_utils.c.
mod Tests
pub mod Disk
pub mod State
pub mod Utils
pub mod Files
pub mod Names
pub mod Unlink
pub mod Commands
pub mod Count
pub mod Replay
pub mod FileAt
pub mod Lookup
pub mod Start
pub mod Entries
pub mod FreeNumber
pub mod Existing
pub mod Found
pub mod Create
pub mod CreateImage
pub mod CreateRun
pub mod CreateLookup
pub mod CreateWrite
pub mod Shift
pub mod Removal
pub mod Unlinked
pub mod WriteRead
pub mod Transmit
pub mod Client
pub mod Network
pub mod Reply
pub mod Agreement
pub mod Exchange
pub mod EndToEnd
pub mod LostAnswer
