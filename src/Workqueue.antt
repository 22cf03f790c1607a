-- ===== src/Workqueue.antt =====
-- 9/interrupts/workqueue/mywq.c: a keyboard interrupt handler with two work queues.
pub mod Module
pub mod Handler
