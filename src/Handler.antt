-- ===== src/Handler.antt =====
-- dos.c and handler.c: the DOS packets, the queue of file transfers, the locks, and the main loop.
pub mod Names
pub mod State
pub mod Network
pub mod Files
pub mod Locks
pub mod Replies
pub mod Loop
pub mod Reliable
pub mod Transfer
pub mod Naming
pub mod Answers
pub mod Queue
pub mod Errors
pub mod Leases
pub mod Accept
pub mod Wire
pub mod Timeouts
pub mod Server
pub mod Lossless
