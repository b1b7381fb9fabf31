-- ===== src/Network.antt =====
-- network/: the ring buffer of a connection, the codec of integers, and the timers.
pub mod Buffer
pub mod Coding
pub mod Codec
pub mod Conn
pub mod RpcConn
pub mod RpcServer
pub mod Dispatcher
pub mod ThreadPool
pub mod Channel
pub mod Poller
pub mod Kqueue
