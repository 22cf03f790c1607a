-- ===== src/MyVfs.antt =====
-- 7/vfs/myvfs.c: another file system module, with a slab cache of one object.
pub mod Module
pub mod Super
