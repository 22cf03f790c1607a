-- ===== src/Tasklet.antt =====
-- 9/interrupts/tasklet/tasklet.c: a keyboard interrupt handler whose bottom half is a tasklet.
pub mod Module
pub mod Keys
pub mod Handler
pub mod Samples
