-- ===== src/Runtime/Protocol.antt =====
-- src/dr_exec/runtime/protocol.py and wire.py: the reader of the protected protocol.
pub mod Wire
pub mod Decode
pub mod Acquire
pub mod Accept
pub mod Stream
pub mod Lines
pub mod Refill
pub mod Chunks
pub mod Verdict
pub mod Feed
pub mod Transcript
mod Tests
