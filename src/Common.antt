-- ===== src/Common.antt =====
-- pmrdmabenchmark/src/common.c, by its parts.
pub mod Addr
pub mod Buf
pub mod Sizes
pub mod Wait
