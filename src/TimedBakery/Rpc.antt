-- ===== src/TimedBakery/Rpc.antt =====
-- What rpcgen makes for 3/proc/bakery2: the encoding of `struct BAKERY`, the dispatch of the server,
-- and the stubs of the client.
pub mod Xdr
pub mod Dispatch
pub mod Wire
pub mod Resend
