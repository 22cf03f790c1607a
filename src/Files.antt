-- ===== src/Files.antt =====
-- 8/open_file/src: programs that open one file twice. Readers, Racers, Tracks, Races, Turns,
-- Appenders and Reports are about descriptors, Shared, Threads, Counts, Bags, Writers and Sizes
-- about the buffered streams of stdio.
pub mod Readers
pub mod Racers
pub mod Tracks
pub mod Races
pub mod Appenders
pub mod Shared
pub mod Threads
pub mod Counts
pub mod Writers
pub mod Sizes
pub mod Reports
pub mod Turns
pub mod Bags
