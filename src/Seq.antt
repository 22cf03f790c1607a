-- ===== src/Seq.antt =====
-- 6/seq_files/seq_file.c: a /proc file read through the kernel's sequential-file interface.
pub mod Module
pub mod Iter
pub mod Passes
