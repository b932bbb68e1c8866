-- ===== src/Extern.antt =====
-- What the program takes from other packages: records of functions with the documented behaviour
-- that the program relies on.
pub mod Encodings
pub mod Hashing
pub mod Crypto
pub mod Envelopes
pub mod Json
pub mod Floats
