-- ===== src/Processor.antt =====
-- One handler per instruction (src/processor).
pub mod Settings
pub mod ThreadFees
pub mod AccessLists
pub mod ThreadAccess
pub mod Alloc
pub mod FillSlot
pub mod AppendContent
pub mod CloseAccount
pub mod LikeContent
pub mod Follow
pub mod Sweep
