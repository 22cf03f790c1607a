-- ===== src/Fortune.antt =====
-- 6/fortunka/fortune.c: a /proc file over one page of memory, in which every write leaves a
-- NUL-terminated cookie and every read returns the next cookie with a newline.
pub mod Device
pub mod Jar
pub mod Write
pub mod Read
pub mod Session
pub mod Module
