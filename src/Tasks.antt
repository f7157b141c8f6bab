-- ===== src/Tasks.antt =====
-- affinidi-messaging-mediator/src/tasks.
pub mod Update
pub mod Streaming
