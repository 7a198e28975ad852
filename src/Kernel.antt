-- ===== src/Kernel.antt =====
-- What the modules use of the kernel, which is not in the repository: each interface is a record
-- of operations and of the documented behaviour that the modules rely on.
pub mod Paging
pub mod Run
pub mod Flat
pub mod Areas
pub mod Copy
pub mod Walks
pub mod Timers
pub mod Lists
pub mod Fifo
pub mod Files
pub mod Records
pub mod Semaphore
