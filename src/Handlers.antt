-- ===== src/Handlers.antt =====
-- affinidi-messaging-mediator/src/handlers: the HTTP and web-socket end points.
pub mod Authenticate
pub mod Requests
pub mod Websocket
