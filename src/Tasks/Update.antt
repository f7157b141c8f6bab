-- ===== src/Tasks/Update.antt =====
-- The commands of the streaming task, of affinidi-messaging-mediator/src/tasks/websocket_streaming.rs.
-- An `mpsc::Sender` is the number of its channel.
use affinidi_messaging.Common.{ℕ, String, Bool}

pub data StreamingUpdateState : Type 0 where
  register : ℕ → StreamingUpdateState
  start stop deregister : StreamingUpdateState

pub record StreamingUpdate : Type 0 where
  pub did_hash : String
  pub state : StreamingUpdateState

-- The message of the pub/sub channel.
pub record PubSubRecord : Type 0 where
  pub did_hash : String
  pub message : String
  pub force_delivery : Bool
