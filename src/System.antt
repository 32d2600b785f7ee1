-- ===== src/System.antt =====
-- The program as a transition system: the banks that its instructions (`process_instruction` of
-- src/lib.rs) and the rest of the chain reach, and what holds of the program's accounts in all of them.
pub mod Sound
pub mod Writes
pub mod Frames
pub mod Keeps
pub mod Handlers
pub mod Reach
pub mod Reached
pub mod Following
