-- ===== src/Tests.antt =====
-- Concrete runs: an implementation of the Borsh primitives and of the runtime that meets the laws,
-- and the theorems at inputs where their hypotheses hold.
pub mod LittleEndian
pub mod Pairs
pub mod Format
pub mod World
pub mod Scene
mod Editing
mod Lists
mod Platform
mod Posting
mod Chain
mod Messages
mod Sweeps
mod Growing
mod Paying
mod Starting
mod Gating
mod Reaching
mod Reached
mod Following
mod Deploying
mod Fees
