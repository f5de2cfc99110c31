-- ===== src/Seqlock.antt =====
-- include/general_util/od_generic_inline_util.h, the sequence locks, and the two functions of
-- include/mica/od_kvs.h that read and write a value under one. Any number of workers interleave;
-- each shared access, a byte of `memcpy` too, is one atomic step on sequentially consistent memory.
pub mod Defs
pub mod Invariant
pub mod Safety
