-- ===== src/State.antt =====
-- On-chain account state and the helpers that operate on it (src/state).
pub mod Constants
pub mod Accounts
pub mod Codecs
pub mod Pda
pub mod Asserts
pub mod AccountUtils
pub mod Fees
pub mod Loaders
pub mod Access
