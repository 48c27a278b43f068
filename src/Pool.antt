-- ===== src/Pool.antt =====
-- nvidia_gsp/nvidia/IntrSafePool.{h,cpp}: the blocks that are kept at hand for allocations with
-- interrupts disabled.
pub mod Group
pub mod SizeClass
pub mod State
pub mod Maintain
pub mod Invariant
pub mod System
pub mod Safety
pub mod Reclaim
pub mod Refill
mod Examples
