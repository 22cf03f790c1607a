-- ===== src/Bakery/Rpc.antt =====
-- The Sun RPC between the server and the clients of 3/proc/bakery_server.c: Dispatch is
-- 3/proc/bakery_svc.c over any three procedures, Calls the procedures of the server, as calls that
-- its main thread makes among the steps of the others, and Wire the stubs of 3/proc/bakery_clnt.c
-- with a client. 3/proc/bakery1 has the same texts. 3/proc/bakery_xdr.c is the same text as that of
-- 3/proc/bakery2, which TimedBakery/Rpc/Xdr models.
pub mod Dispatch
pub mod Calls
pub mod Wire
pub mod Exchange
pub mod Progress
