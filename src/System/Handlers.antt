-- ===== src/System/Handlers.antt =====
-- Each instruction keeps every account of the program sound.
pub mod Settings
pub mod Threads
pub mod Entries
pub mod Gates
pub mod Posts
pub mod Likes
pub mod Messages
pub mod Registries
pub mod Follows
pub mod Sweeps
pub mod Lists
