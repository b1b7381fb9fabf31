-- ===== src/Io.antt =====
-- The storage layer, io/.
pub mod Result
pub mod Unix
pub mod HashTable
pub mod BufferManager
pub mod FileHandle
pub mod Criterion
pub mod IoManager
