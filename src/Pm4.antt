-- ===== src/Pm4.antt =====
-- src/pm4 and include/rocsift/pm4.h: decoding of PM4 runlists, from dwords (Packet, Entry, Stream)
-- and from the text of the debugfs file (Line, Parser).
pub mod Types
pub mod Packet
pub mod Entry
pub mod Heap
pub mod Capi
pub mod Encode
pub mod RoundTrip
pub mod Stream
pub mod Short
pub mod Line
pub mod Print
pub mod Parser
mod TestLines
mod Tests
