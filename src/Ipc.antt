-- ===== src/Ipc.antt =====
-- archive/include: the structures that processes share through memory. Queue is queue.hh, Pool is
-- pool.hh and xpmem.hh.
pub mod Queue
pub mod Pool
pub mod Address
