-- ===== src/Client.antt =====
-- src/client.rs: the client, what it makes of the answers that it gets, and what it does.
pub mod Fields
pub mod Answer
pub mod World
pub mod Calls
pub mod Gates
pub mod Parcel
pub mod Send
pub mod Check
pub mod Message
pub mod Allow
pub mod Threads
pub mod Presence
