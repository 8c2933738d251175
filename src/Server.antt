-- ===== src/Server.antt =====
-- src/server/src: the encodings of the MySQL protocol.
pub mod Constants
pub mod ProtocolBase
pub mod Packets
