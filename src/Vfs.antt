-- ===== src/Vfs.antt =====
-- 7/vfs/main.c: a file system module with a slab cache of 128 objects.
pub mod Module
pub mod Objects
pub mod Life
pub mod Super
