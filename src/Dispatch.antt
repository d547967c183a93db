-- ===== src/Dispatch.antt =====
-- How accounts are spread over scanner threads: client::push_accounts and client::replace_accounts of
-- src/rpc/scanner/client.cpp, and check_users and do_replace_users of src/rpc/scanner/server.cpp.
-- The local threads are the queues of Queue; what is written to a remote client is a value. An account
-- that was moved from is `none`. Threads and sockets are not modelled: each function runs on its strand.
pub mod Client
pub mod Shares
pub mod Push
pub mod Server
pub mod Replace
pub mod Spread
pub mod Balance
pub mod Runs
