-- ===== src/Client.antt =====
-- The client library, libc: its state, the exchange of a request and a reply, and the operations.
pub mod State
pub mod Request
pub mod Files
pub mod Names
pub mod Blocks
pub mod Wire
pub mod Safe
pub mod Gives
pub mod Received
pub mod Frame
pub mod Transfer
pub mod Ends
pub mod Offset
pub mod Seek
mod Tests
