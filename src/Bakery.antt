-- ===== src/Bakery.antt =====
-- 3/proc: the bakery server over Sun RPC. Bakery/System is 3/proc/bakery_server.c (the same text as
-- 3/proc/bakery1/bakery_server.c) with its threads; Bakery/Invariant is what holds in all of its
-- reachable states, Bakery/Safety what follows for the clients, Bakery/Letters which of them gets
-- which letter, Bakery/Progress a run of it, and Bakery/Liveness how it can go on from any state.
-- Bakery/Client is 3/proc/bakery_client.c, and Bakery/Rpc the way between the two.
pub mod Family
pub mod System
pub mod Invariant
pub mod Safety
pub mod Letters
pub mod Progress
pub mod Liveness
pub mod Client
pub mod Rpc
