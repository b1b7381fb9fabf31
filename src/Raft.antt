-- ===== src/Raft.antt =====
-- consensus/raft/raft_server.h and raft_server.cc, with log.h and rpc_args.h: one server, as a
-- function of its state for each handler. What it asks of the dispatcher and of its peers is a
-- list of events; `std::mutex` is a flag, since the handlers take it again while they hold it.
pub mod Outcome
pub mod State
pub mod Server
pub mod Replication
pub mod Life
pub mod Lock
pub mod Vote
pub mod Election
pub mod Append
pub mod Commit
pub mod Store
pub mod Wire
