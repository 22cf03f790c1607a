-- ===== src/Tests.antt =====
-- Runs of the theorems at concrete inputs.
mod Bakery
mod BakeryRpc
mod Sockets
mod TimedBakery
mod ProcInfo
mod Fortune
mod Proc
mod Interrupts
mod Filesystems
mod Catalog
mod Files
