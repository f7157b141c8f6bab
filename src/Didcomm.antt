-- ===== src/Didcomm.antt =====
-- The crate affinidi-messaging-didcomm, as far as the mediator's core uses it.
pub mod Error
pub mod Crypto
pub mod Envelope
pub mod FromPrior
pub mod Jwe
pub mod Jws
pub mod Keys
pub mod Message
pub mod Pack
pub mod Routing
pub mod Tests
pub mod Toy
pub mod Unpack
pub mod Wire
