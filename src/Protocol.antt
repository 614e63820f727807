-- ===== src/Protocol.antt =====
-- src/protocol.c and inc/trilogy/protocol.h: the packets of the MySQL protocol.
pub mod Types
pub mod Replies
pub mod Handshake
pub mod Rows
pub mod BinaryValue
pub mod BinaryRow
pub mod Commands
pub mod Execute
pub mod Auth
pub mod Safety
pub mod Total
pub mod RoundTrip
pub mod Bounds
