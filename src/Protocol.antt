-- ===== src/Protocol.antt =====
-- protocol.hpp and protocol.cpp: the RP message format. Opcodes, the little-endian reader and
-- writer of message payloads, and the framer that cuts the byte stream into messages.
pub mod Bytes
pub mod Writer
pub mod Opcode
pub mod Reader
pub mod Framer
