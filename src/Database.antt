-- ===== src/Database.antt =====
-- affinidi-messaging-mediator/src/database: what the mediator asks of the Redis server.
pub mod Session
pub mod Streaming
pub mod Elements
pub mod Messages
