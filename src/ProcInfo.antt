-- ===== src/ProcInfo.antt =====
-- 3/proc/main.c, which writes what /proc tells of a process to a file. Run is what its functions
-- share; Chunks has the files that are copied, Stat the fields of `stat`, Links the symbolic links
-- and the directories, Maps the address space, and Report is `main`.
pub mod Run
pub mod Chunks
pub mod Tokens
pub mod Stat
pub mod Links
pub mod Maps
pub mod Report
pub mod Pagemap
pub mod Pages
