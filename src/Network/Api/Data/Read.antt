-- ===== src/Network/Api/Data/Read.antt =====
-- lib/core/data.cpp: what `from_json` reads of the objects that the server sends.
use chat_up.Base.{◌≡◌, refl, List, ◌∷◌, [], some, String, string_eq, arith, pos, ◌<◌, ◌^◌, ◌%◌, ◌∙◌}
use chat_up.Core.User.{UserData, Status, offline, online}
use chat_up.Core.Group.{ExtendedData}
use chat_up.Core.Message.{MessageData}
use chat_up.Core.Participate.{ParticipateData}
use chat_up.Network.Json.{Json, member?}
use chat_up.Network.Api.{run, read_value, read_present, read_non_null, stored}
use chat_up.Network.Api.Data.{
  GroupData, Texts, user_from_json, group_from_json, extended_from_json, message_from_json,
  participate_from_json, to_uint32, status_of_text,
}

abbrev text_of_status : Status → String
text_of_status offline = "offline"
text_of_status online = "online"

status_of-text_of : (s : Status) → status_of_text (text_of_status s) ≡ s
status_of-text_of offline = refl
status_of-text_of online = refl

module _ (json : Json) where
  open json use {J}

  -- A member of an object, found by its key.
  pub found :
      (ms : List (String × J)) (key : String) (v : J)
      → member? key ms ≡ some v
      → json.at (json.object ms) key ≡ some v
  found ms key v e = json.at-object ms key ∙ e

  -- The members of the objects that the data are sent as.
  abbrev pub user_members : UserData → List (String × J)
  user_members p =
      ("id", json.of_int p.id)
      ∷ ("name", json.of_string p.name)
      ∷ ("tag", json.of_string p.tag)
      ∷ ("status", json.of_string (text_of_status p.status))
      ∷ []

  abbrev pub group_members : GroupData → List (String × J)
  group_members p =
      ("id", json.of_int p.id)
      ∷ ("name", json.of_string p.name)
      ∷ ("tag", json.of_string p.tag)
      ∷ []

  abbrev pub participate_members : ParticipateData → List (String × J)
  participate_members p =
      ("participate", json.of_int p.user_id)
      ∷ ("roomID", json.of_int p.room_id)
      ∷ ("audio", json.of_bool p.has_audio)
      ∷ ("video", json.of_bool p.has_video)
      ∷ []

  pub user_from_json-object :
      (p q : UserData) → user_from_json json (json.object (user_members p)) q ≡ p
  unfolding user_from_json run read_value read_present stored
  user_from_json-object p q =
      let at = found (user_members p) in
      rw
        (
          run,
          json.is_object-object (user_members p),
          at "id" _ refl,
          json.get_int-of_int,
          at "name" _ refl,
          json.get_string-of_string,
          at "tag" _ refl,
          json.get_string-of_string,
          at "status" _ refl,
          json.get_string-of_string,
          status_of-text_of,
        )
        refl

  pub group_from_json-object :
      (p q : GroupData) → group_from_json json (json.object (group_members p)) q ≡ p
  unfolding group_from_json run read_value read_present stored
  group_from_json-object p q =
      let at = found (group_members p) in
      rw
        (
          run,
          json.is_object-object (group_members p),
          at "id" _ refl,
          json.get_int-of_int,
          at "name" _ refl,
          json.get_string-of_string,
          at "tag" _ refl,
          json.get_string-of_string,
        )
        refl

  pub participate_from_json-object :
      (p q : ParticipateData)
      → participate_from_json json (json.object (participate_members p)) q ≡ p
  unfolding participate_from_json run read_value stored
  participate_from_json-object p q =
      let at = found (participate_members p) in
      let is = json.is_object-object (participate_members p) in
      rw
        (
          run,
          is,
          at "participate" _ refl,
          json.get_int-of_int,
          is,
          at "roomID" _ refl,
          json.get_int-of_int,
          is,
          at "audio" _ refl,
          json.get_bool-of_bool,
          is,
          at "video" _ refl,
          json.get_bool-of_bool,
        )
        refl

  module _ {Time Bytes : Type 0} (texts : Texts Time Bytes) where
    -- A group whose last message has that time, as a text; a null for the name where it has none.
    abbrev pub extended_members : ExtendedData Time → String → J → List (String × J)
    extended_members p time name =
        ("id", json.of_int p.id)
        ∷ ("messageCount", json.of_int p.message_count)
        ∷ ("name", name)
        ∷ ("tag", json.of_string p.tag)
        ∷ ("foreignReadings", json.of_int p.foreign_readings)
        ∷ ("localReadings", json.of_int p.local_readings)
        ∷ ("lastSender", json.of_int p.last_sender)
        ∷ ("lastMessageTime", json.of_string time)
        ∷ ("lastBody", json.of_string p.last_body)
        ∷ []

    pub extended_from_json-object :
        (p q : ExtendedData Time) (time : String)
        → texts.time_of_text time ≡ p.last_message_time
        → extended_from_json json texts
            (json.object (extended_members p time (json.of_string p.name)))
            q
          ≡ p
    unfolding extended_from_json run read_value read_present read_non_null stored
    extended_from_json-object p q time e =
        let ms = extended_members p time (json.of_string p.name) in
        let at = found ms in
        rw
          (
            run,
            json.is_object-object ms,
            at "id" _ refl,
            json.get_int-of_int,
            at "messageCount" _ refl,
            json.is_null-of_int,
            json.get_int-of_int,
            at "name" _ refl,
            json.get_string-of_string,
            at "tag" _ refl,
            json.get_string-of_string,
            at "foreignReadings" _ refl,
            json.is_null-of_int,
            json.get_int-of_int,
            at "localReadings" _ refl,
            json.is_null-of_int,
            json.get_int-of_int,
            at "lastSender" _ refl,
            json.is_null-of_int,
            json.get_int-of_int,
            at "lastMessageTime" _ refl,
            json.is_null-of_string,
            json.get_string-of_string,
            at "lastBody" _ refl,
            json.is_null-of_string,
            json.get_string-of_string,
            e,
          )
          refl

    -- A group whose name is null: its id and its message count are read, and nothing after them.
    pub extended_from_json-null_name :
        (p q : ExtendedData Time) (time : String)
        → extended_from_json json texts (json.object (extended_members p time json.null)) q
          ≡ record q { id = p.id; message_count = p.message_count }
    unfolding extended_from_json run read_value read_present read_non_null stored
    extended_from_json-null_name p q time =
        let ms = extended_members p time json.null in
        let at = found ms in
        rw
          (
            run,
            json.is_object-object ms,
            at "id" _ refl,
            json.get_int-of_int,
            at "messageCount" _ refl,
            json.is_null-of_int,
            json.get_int-of_int,
            at "name" _ refl,
            json.get_string-null,
          )
          refl

    abbrev pub message_members : MessageData Time Bytes → String → String → List (String × J)
    message_members p time body =
        ("id", json.of_int p.id)
        ∷ ("userID", json.of_int p.user_id)
        ∷ ("roomID", json.of_int p.room_id)
        ∷ ("messageIndex", json.of_int (pos p.message_index))
        ∷ ("body", json.of_string body)
        ∷ ("time", json.of_string time)
        ∷ []

    pub message_from_json-object :
        (p q : MessageData Time Bytes) (time body : String)
        → p.message_index < 2 ^ 32
        → texts.time_of_text time ≡ p.time
        → texts.bytes_of_text body ≡ p.body
        → message_from_json json texts (json.object (message_members p time body)) q ≡ p
    unfolding message_from_json run read_value read_present stored to_uint32
    message_from_json-object p q time body small e f =
        let ms = message_members p time body in
        let at = found ms in
        let is = json.is_object-object ms in
        let index : p.message_index % 2 ^ 32 ≡ p.message_index = omega arith in
        rw
          (
            run,
            is,
            at "id" _ refl,
            json.get_int-of_int,
            is,
            at "userID" _ refl,
            json.get_int-of_int,
            is,
            at "roomID" _ refl,
            json.get_int-of_int,
            is,
            at "messageIndex" _ refl,
            json.get_int-of_int,
            at "body" _ refl,
            json.get_string-of_string,
            at "time" _ refl,
            json.get_string-of_string,
            index,
            e,
            f,
          )
          refl
