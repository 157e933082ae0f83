-- ===== src/Examples.antt =====
-- The theorems at concrete inputs, a file for each part of the program.
pub mod Timers
pub mod Codings
pub mod Messages
pub mod Parts
pub mod Subscriptions
pub mod Channels
pub mod Managers
