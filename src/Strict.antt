-- ===== src/Strict.antt =====
-- src/runtime/strict/strict_executor.ts and src/runtime/strict/types.ts: the host's side of the strict
-- sandbox. A worker runs the program; the host talks to it over a bound channel, asks the
-- capability kernel on its behalf and resolves one promise, the result of the entry.
pub mod Types
pub mod State
pub mod Preflight
pub mod Messages
pub mod Step
pub mod Effects
pub mod Follows
pub mod Emit
pub mod Answer
pub mod Refine
pub mod Handle
pub mod Once
pub mod Cleared
pub mod Safe
pub mod Ready
pub mod Value
pub mod Checked
