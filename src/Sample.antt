-- ===== src/Sample.antt =====
-- Concrete functions that behave as the interfaces of `Extern` ask, for the tests.
pub mod Base64
pub mod Hex
pub mod Base32
pub mod Digest
pub mod Json
pub mod Floats
pub mod Crypto
pub mod World
