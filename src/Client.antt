-- ===== src/Client.antt =====
-- src/client.c: the client over a socket.
pub mod Callbacks
pub mod ReadPacket
pub mod Reassembly
pub mod Connection
pub mod Wait
pub mod Phase
pub mod Responses
pub mod Commands
pub mod Escape
pub mod Auth
pub mod Answers
pub mod Keeps
pub mod Password
