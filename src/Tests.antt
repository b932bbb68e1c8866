-- ===== src/Tests.antt =====
-- The theorems at concrete inputs, and runs of the definitions.
mod Core
mod Receipt
mod Gate
pub mod Keys
pub mod Plan
pub mod Client
mod Send
mod Board
