-- ===== src/IoBuffer.antt =====
-- include/IOBuffer.hpp and src/IOBuffer.cc.
pub mod Bytes
pub mod Buffer
pub mod Streams
pub mod Codec
