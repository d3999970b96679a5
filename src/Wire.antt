-- ===== src/Wire.antt =====
-- What include/protocol.h and src/common/protocol.c put on the wire: byte order, the byte
-- streams below a socket, and TLV packets.
pub mod Endian
pub mod Stream
pub mod Types
pub mod Packet
pub mod Command
pub mod Tests
