-- ===== src/TimedBakery.antt =====
-- 3/proc/bakery2: the server that gives up waiting after a second, and its client.
pub mod Server
pub mod Order
pub mod Client
pub mod Rpc
