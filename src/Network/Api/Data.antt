-- ===== src/Network/Api/Data.antt =====
-- lib/core/data.cpp: `from_json` and `to_json` of the data. A list of values of which one is no pair of
-- a text and a value is a JSON array, so that `to_json` makes an array of "data" and an object.
pub mod Unread
pub mod Read
use chat_up.Base.{
  ℕ, ◌-◌, ◌%◌, ◌^◌, Bool, true, false, Option, none, some, List, [], ◌∷◌, String, ℤ, pos, negsuc,
  string_eq, ◌==◌, if◌then◌else◌,
}
use chat_up.Core.Values.{Values}
use chat_up.Core.User
use chat_up.Core.User.{UserData, Status, offline, online}
use chat_up.Core.Group
use chat_up.Core.Group.{ExtendedData}
use chat_up.Core.Message
use chat_up.Core.Message.{MessageData}
use chat_up.Core.Participate.{ParticipateData}
use chat_up.Network.Json.{Json}
use chat_up.Network.Api.{run, read_value, read_present, read_non_null}

-- Group::Data
pub record GroupData : Type 0 where
  pub id : ℤ
  pub name : String
  pub tag : String

abbrev pub new_group : GroupData
new_group = record { id = Group.invalid_id; name = ""; tag = "" }

-- What is used of QDateTime, with Qt::ISODate and without, and of QByteArray.
pub record Texts (Time Bytes : Type 0) : Type 0 where
  pub time_of_text : String → Time
  pub text_of_time : Time → String
  pub bytes_of_text : String → Bytes
  pub text_of_bytes : Bytes → String

-- Message::invalidIndex
abbrev pub invalid_index : ℤ
invalid_index = negsuc 0

-- A value of `int` as one of `uint32_t`.
pub to_uint32 : ℤ → ℕ
to_uint32 (pos n) = n % 2 ^ 32
to_uint32 (negsuc n) = 2 ^ 32 - 1 - n % 2 ^ 32

-- The enumerators of User::Status as numbers.
status_number : Status → ℤ
status_number offline = pos 0
status_number online = pos 1

abbrev pub status_of_text : String → Status
status_of_text s = if s == "online" then online else offline

module _ (json : Json) where
  open json use {J}

  data_of : List (String × J) → J
  data_of ms = json.array (json.of_string "data" ∷ json.object ms ∷ [])

  pub user_to_json : UserData → J
  unfolding data_of status_number
  user_to_json p = data_of (
      ("id", json.of_int p.id)
      ∷ ("name", json.of_string p.name)
      ∷ ("tag", json.of_string p.tag)
      ∷ ("status", json.of_int (status_number p.status))
      ∷ [])

  pub user_from_json : J → UserData → UserData
  user_from_json j = run (
      read_value json json.get_int j "id" User.invalid_id (λ n p. record p { id = n })
      ∷ read_present json json.get_string j "name" (λ s p. record p { name = s })
      ∷ read_present json json.get_string j "tag" (λ s p. record p { tag = s })
      ∷ read_present json json.get_string j "status" (λ s p. record p { status = status_of_text s })
      ∷ [])

  pub group_to_json : GroupData → J
  unfolding data_of
  group_to_json p = data_of (
      ("id", json.of_int p.id)
      ∷ ("name", json.of_string p.name)
      ∷ ("tag", json.of_string p.tag)
      ∷ [])

  pub group_from_json : J → GroupData → GroupData
  group_from_json j = run (
      read_value json json.get_int j "id" Group.invalid_id (λ n p. record p { id = n })
      ∷ read_present json json.get_string j "name" (λ s p. record p { name = s })
      ∷ read_present json json.get_string j "tag" (λ s p. record p { tag = s })
      ∷ [])

  pub participate_from_json : J → ParticipateData → ParticipateData
  participate_from_json j = run (
      read_value json json.get_int j "participate" User.invalid_id (λ n p. record p { user_id = n })
      ∷ read_value json json.get_int j "roomID" Group.invalid_id (λ n p. record p { room_id = n })
      ∷ read_value json json.get_bool j "audio" false (λ b p. record p { has_audio = b })
      ∷ read_value json json.get_bool j "video" false (λ b p. record p { has_video = b })
      ∷ [])

  -- Participate::to_json leaves the null of `json j`.
  pub participate_to_json : ParticipateData → J
  participate_to_json p = json.null

  module _ {Time Bytes : Type 0} (texts : Texts Time Bytes) where
    pub extended_to_json : ExtendedData Time → J
    unfolding data_of
    extended_to_json p = data_of (
        ("id", json.of_int p.id)
        ∷ ("name", json.of_string p.name)
        ∷ ("tag", json.of_string p.tag)
        ∷ ("messageCount", json.of_int p.message_count)
        ∷ [])

    pub extended_from_json : J → ExtendedData Time → ExtendedData Time
    extended_from_json j = run (
        read_value json json.get_int j "id" Group.invalid_id (λ n p. record p { id = n })
        ∷ read_non_null json json.get_int j "messageCount" (λ n p. record p { message_count = n })
        ∷ read_present json json.get_string j "name" (λ s p. record p { name = s })
        ∷ read_present json json.get_string j "tag" (λ s p. record p { tag = s })
        ∷ read_non_null json json.get_int j "foreignReadings"
            (λ n p. record p { foreign_readings = n })
        ∷ read_non_null json json.get_int j "localReadings" (λ n p. record p { local_readings = n })
        ∷ read_non_null json json.get_int j "lastSender" (λ n p. record p { last_sender = n })
        ∷ read_non_null json json.get_string j "lastMessageTime"
            (λ s p. record p { last_message_time = texts.time_of_text s })
        ∷ read_non_null json json.get_string j "lastBody" (λ s p. record p { last_body = s })
        ∷ [])

    pub message_to_json : MessageData Time Bytes → J
    unfolding data_of
    message_to_json p = data_of (
        ("id", json.of_int p.id)
        ∷ ("userID", json.of_int p.user_id)
        ∷ ("roomID", json.of_int p.room_id)
        ∷ ("time", json.of_string (texts.text_of_time p.time))
        ∷ ("body", json.of_string (texts.text_of_bytes p.body))
        ∷ ("messageIndex", json.of_int (pos p.message_index))
        ∷ [])

    pub message_from_json : J → MessageData Time Bytes → MessageData Time Bytes
    unfolding to_uint32
    message_from_json j = run (
        read_value json json.get_int j "id" Message.invalid_id (λ n p. record p { id = n })
        ∷ read_value json json.get_int j "userID" User.invalid_id (λ n p. record p { user_id = n })
        ∷ read_value json json.get_int j "roomID" Group.invalid_id (λ n p. record p { room_id = n })
        ∷ read_value json json.get_int j "messageIndex" invalid_index
            (λ n p. record p { message_index = to_uint32 n })
        ∷ read_present json json.get_string j "body"
            (λ s p. record p { body = texts.bytes_of_text s })
        ∷ read_present json json.get_string j "time"
            (λ s p. record p { time = texts.time_of_text s })
        ∷ [])
