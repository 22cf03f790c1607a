-- ===== src/Sockets.antt =====
-- The programs of 2, which send texts over sockets.
pub mod Text
pub mod Receive
pub mod Epoll
pub mod Rounds
pub mod Sessions
pub mod Pair
pub mod Exchange
pub mod Respond
pub mod Answers
