-- ===== src/Kernel.antt =====
-- kernel/sdk/rust/src/lib.rs: `MemoryKernel`, the in-memory implementation of `KernelApi`.
pub mod Platform
pub mod Error
pub mod Digest
pub mod Bag
pub mod State
pub mod Registry
pub mod Store
pub mod Blobs
pub mod Assembly
pub mod Cycle
pub mod Validate
pub mod Ready
pub mod Runs
pub mod Lease
pub mod Commit
pub mod Api
pub mod Keeps
pub mod Traverse
pub mod Ledger
pub mod Stores
pub mod Known
pub mod Sound
pub mod Examples
