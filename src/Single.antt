-- ===== src/Single.antt =====
-- 6/seq_files/single_file.c: a /proc file whose writer stores a process number as text and whose
-- reader shows that process.
pub mod Module
pub mod Device
pub mod Show
