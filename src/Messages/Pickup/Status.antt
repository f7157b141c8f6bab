-- ===== src/Messages/Pickup/Status.antt =====
-- `generate_status_reply` of message_pickup.rs: the status message about a queue.
use affinidi_messaging.Common.{
  ℕ, ◌+◌, ◌-◌, ◌/◌, ◌%◌, ◌^◌, ltb, String, Bool, false, List, [], ◌∷◌, Option, none, some, ◌=ₛ◌,
  pure, ◌>>=◌, ◌>>◌, if◌then◌else◌, split, parse_u64, add_u64,
}
use affinidi_messaging.Errors.{Session, database_error}
use affinidi_messaging.Json.{Value, object, string, number, bool, end, field, optional}
use affinidi_messaging.Didcomm.Message.{
  Message, build, add_to, set_from, set_thid, set_created_time, set_expires_time, finalize,
}
use affinidi_messaging.Redis.{Redis, text, num, cmd, M, get_async_connection, query_async}
use affinidi_messaging.Database.Elements.{tuples}
use affinidi_messaging.Messages.{Outside, message, ProcessMessageResponse}

-- affinidi-messaging-sdk/src/protocols/message_pickup.rs.
pub record StatusReply : Type 0 where
  pub recipient_did : String
  pub message_count : ℕ
  pub longest_waited_seconds : Option ℕ
  pub newest_received_time : Option ℕ
  pub oldest_received_time : Option ℕ
  pub total_bytes : ℕ
  pub live_delivery : Bool

-- What serde derives: the absent times are left out.
abbrev pub to_value : StatusReply → Value
to_value s = object (
    field "recipient_did" (string s.recipient_did) (
      field "message_count" (number s.message_count) (
        optional "longest_waited_seconds" s.longest_waited_seconds (
          optional "newest_received_time" s.newest_received_time (
            optional "oldest_received_time" s.oldest_received_time (
              field "total_bytes" (number s.total_bytes)
                (field "live_delivery" (bool s.live_delivery) end)))))))

abbrev pub start_status : String → StatusReply
start_status did = record {
  recipient_did = did;
  message_count = 0;
  longest_waited_seconds = none;
  newest_received_time = none;
  oldest_received_time = none;
  total_bytes = 0;
  live_delivery = false;
}

abbrev seconds : Option ℕ → Option ℕ
seconds none = none
seconds (some t) = some (t / 1000)

-- The time of a stream id `milliseconds-sequence`; an id of another shape changes nothing.
unfoldable pub received_time : List String → Option ℕ → Option ℕ
received_time (time ∷ sequence ∷ []) old = seconds (parse_u64 time)
received_time parts old = old

abbrev time_if_text : Option String → Option ℕ → Option ℕ
time_if_text none old = old
time_if_text (some v) old = received_time (split b'-' v) old

abbrev or_keep : {A : Type 0} → Option A → A → A
or_keep none old = old
or_keep (some new) old = new

abbrev u32_only : Option ℕ → Option ℕ
u32_only none = none
u32_only (some n) = if ltb n (2 ^ 32) then some n else none

abbrev pub or_empty : Option String → String
or_empty none = ""
or_empty (some k) = k

-- `now.wrapping_sub(t)`.
abbrev pub wrapping_sub : ℕ → ℕ → ℕ
wrapping_sub now t = (now + 2 ^ 64 - t) % 2 ^ 64

abbrev pub with_wait : ℕ → Option ℕ → StatusReply → StatusReply
with_wait now none s = s
with_wait now (some t) s = record s { longest_waited_seconds = some (wrapping_sub now t) }

module _ (r : Redis) where
  open r use {Reply, to_text, to_vec, to_bool, to_number}

  unfoldable pub status_field : StatusReply → String → Reply → StatusReply
  unfolding received_time
  status_field s k v =
      if k =ₛ "newest_received"
      then record s { newest_received_time = time_if_text (to_text v) s.newest_received_time }
      else if k =ₛ "oldest_received"
      then record s { oldest_received_time = time_if_text (to_text v) s.oldest_received_time }
      else if k =ₛ "message_count"
      then record s { message_count = or_keep (u32_only (to_number v)) s.message_count }
      else if k =ₛ "live_delivery"
      then record s { live_delivery = or_keep (to_bool v) s.live_delivery }
      else if k =ₛ "total_bytes"
      then record s { total_bytes = or_keep (to_number v) s.total_bytes }
      else s

  unfoldable pub status_fields : List (Reply × Reply) → StatusReply → StatusReply
  status_fields [] s = s
  status_fields ((k, v) ∷ kvs) s = status_fields kvs (status_field s (or_empty (to_text k)) v)

  -- The status that the reply is about, once it is read.
  unfoldable pub final_status : List Reply → String → ℕ → Option Bool → StatusReply
  unfolding status_fields tuples
  final_status response did now override_live_delivery =
      let s = status_fields (tuples response) (start_status did) in
      with_wait now s.oldest_received_time
        (record s { live_delivery = or_keep override_live_delivery s.live_delivery })

  abbrev pub status_msg : Outside → String → String → ℕ → String → StatusReply → Message
  status_msg o mediator_did did now thid status = finalize (
      set_expires_time (add_u64 now 300) (
        set_created_time now (
          set_from mediator_did (
            add_to did (
              set_thid thid
                (build o.uuid "https://didcomm.org/messagepickup/3.0/status" (to_value status)))))))

  unfoldable pub generate_status_reply :
      Outside
      → String
      → ℕ
      → Session
      → String
      → String
      → Bool
      → Option Bool
      → M r (Option ProcessMessageResponse)
  unfolding final_status
  generate_status_reply o mediator_did now session did_hash thid force_live_delivery override = do
    get_async_connection r
    response ←
        query_async r to_vec
          (database_error session.session_id "get_status_reply({}) failed. Reason: {}")
          (cmd "FCALL" (text "get_status_reply" ∷ num 1 ∷ text did_hash ∷ []) ∷ [])
    pure (
        some (record {
          store_message = false;
          force_live_delivery = force_live_delivery;
          message_response = message (
              status_msg o mediator_did session.did now thid
                (final_status response session.did now override));
        }))
