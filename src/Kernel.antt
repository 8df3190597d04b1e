-- ===== src/Kernel.antt =====
-- src/runtime/kernel/cap_kernel.ts: the capability kernel, which denies by default.
pub mod Types
pub mod Stamp
pub mod Receipt
pub mod Invoke
pub mod Empty
pub mod Deny
pub mod Trace
pub mod Defaults
