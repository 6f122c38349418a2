-- ===== src/MemoryPool.antt =====
-- src/memory_pool.c: the pool of memory segments on the DAX devices.
pub mod Device
pub mod Pool
pub mod Config
