-- ===== src/Tests.antt =====
-- Concrete kernels, files and servers, and the theorems applied to them.
mod Kernel
mod Pool
mod Rounds
mod Files
mod Votes
mod Logs
mod Wire
mod Timers
mod Locks
mod Trees
mod Scans
mod Threads
mod System
mod Rpc
mod Updates
