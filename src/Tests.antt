-- ===== src/Tests.antt =====
-- Concrete instances of the parameters, and each theorem applied to concrete data.
pub mod Fixtures
mod Encodings
mod Ciphers
mod Claims
mod Names
mod Protocol
mod Link
mod Room
mod Creating
mod Delivery
mod Linking
mod Pages
mod Views
