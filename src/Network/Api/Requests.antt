-- ===== src/Network/Api/Requests.antt =====
-- lib/network/api: what each `exec` asks of the server.
use chat_up.Base.{
  ℕ, Bool, true, false, Option, none, some, List, [], ◌∷◌, String, ℤ, pos, if◌then◌else◌,
}
use chat_up.Network.Json.{Json}
use chat_up.Network.NetworkCoordinator.{Priority, authorized_call, direct_call}

-- A call of serverMethod.
pub record Request (J : Type 0) : Type 0 where
  pub method : String
  pub args : J
  pub priority : Priority

-- User::Api::Find
pub record Find : Type 0 where
  pub limit : Option ℤ
  pub use_regexp : Bool
  pub name : Option String
  pub tag : Option String
  pub id : Option String

abbrev pub new_find : Find
new_find = record { limit = none; use_regexp = false; name = none; tag = none; id = none }

-- Data::Description and Data::Candidate of lib/network/api/sdp.h
pub record Description : Type 0 where
  pub id : ℤ
  pub description : String
  pub type : String

pub record Candidate : Type 0 where
  pub id : ℤ
  pub candidate : String
  pub mid : String

module _ (json : Json) where
  open json use {J}

  -- An optional argument before the others.
  with_text : String → Option String → List (String × J) → List (String × J)
  with_text k none ms = ms
  with_text k (some s) ms = (k, json.of_string s) ∷ ms

  with_int : String → Option ℤ → List (String × J) → List (String × J)
  with_int k none ms = ms
  with_int k (some n) ms = (k, json.of_int n) ∷ ms

  with_flag : String → Option Bool → List (String × J) → List (String × J)
  with_flag k none ms = ms
  with_flag k (some b) ms = (k, json.of_bool b) ∷ ms

  -- `json args` is null until the first argument is put into it.
  args_of : List (String × J) → J
  args_of [] = json.null
  args_of (m ∷ ms) = json.object (m ∷ ms)

  abbrev asked : String → List (String × J) → Request J
  asked m ms = record { method = m; args = json.object ms; priority = authorized_call }

  abbrev in_room : String → ℤ → Request J
  in_room m room = asked m (("roomID", json.of_int room) ∷ [])

  -- User::Api
  pub create_user : String → String → Request J
  create_user login password = record {
    method = "registerUser";
    args =
        json.object (("login", json.of_string login) ∷ ("password", json.of_string password) ∷ []);
    priority = direct_call;
  }

  pub get_user : Option ℤ → Request J
  unfolding args_of with_int
  get_user id = record {
    method = "getUser";
    args = args_of (with_int "id" id []);
    priority = authorized_call;
  }

  pub update_user : Option String → Option String → Request J
  unfolding args_of with_text
  update_user name tag = record {
    method = "updateUser";
    args = args_of (with_text "name" name (with_text "tag" tag []));
    priority = authorized_call;
  }

  pub find_users : Find → Request J
  unfolding args_of with_text with_int with_flag
  find_users req = record {
    method = "findUsers";
    args = args_of (
        with_text "name" req.name (
          with_text "tag" req.tag (
            with_text "id" req.id (
              with_int "limit" req.limit
                (with_flag "regexp" (if req.use_regexp then some true else none) [])))));
    priority = authorized_call;
  }

  -- Group::Api
  pub create_room : String → Option String → Request J
  unfolding with_text
  create_room name tag =
      asked "createRoom" (
        with_text "tag" tag (("name", json.of_string name) ∷ ("type", json.of_string "group") ∷ []))

  pub get_rooms : Request J
  get_rooms = asked "getUserRooms" (("type", json.of_string "group") ∷ [])

  pub update_room : ℤ → Option String → Option String → Request J
  unfolding with_text
  update_room room name tag =
      asked "updateRoom"
        (with_text "name" name (with_text "tag" tag (("roomID", json.of_int room) ∷ [])))

  pub add_user : ℤ → ℤ → Request J
  add_user room user =
      asked "addUserToRoom" (("roomID", json.of_int room) ∷ ("userID", json.of_int user) ∷ [])

  pub delete_room : ℤ → Request J
  delete_room room = in_room "deleteRoom" room

  pub get_history : ℤ → Request J
  get_history room = in_room "getRoomHistory" room

  pub get_users : ℤ → Request J
  get_users room = in_room "getRoomUsers" room

  -- Message::Api
  pub get_by_index : ℤ → ℤ → ℤ → Request J
  get_by_index start_index end_index room = asked "getMessagesByIndex" (
      ("from", json.of_int start_index)
      ∷ ("to", json.of_int end_index)
      ∷ ("roomID", json.of_int room)
      ∷ [])

  pub create_message : String → ℤ → Request J
  create_message body room =
      asked "sendChatMessage" (("body", json.of_string body) ∷ ("roomID", json.of_int room) ∷ [])

  -- The id of the message is not sent.
  pub update_message : String → Request J
  update_message body = asked "updateMessage" (("body", json.of_string body) ∷ [])

  pub delete_message : ℤ → Request J
  delete_message id = asked "deleteMessage" (("id", json.of_int id) ∷ [])

  pub mark_read : ℤ → ℕ → Request J
  mark_read room count =
      asked "setReadMessagesCount"
        (("roomID", json.of_int room) ∷ ("count", json.of_int (pos count)) ∷ [])

  -- Call::Api
  pub join : ℤ → String → Request J
  join room sdp = asked "joinCall" (("roomID", json.of_int room) ∷ ("sdp", json.of_string sdp) ∷ [])

  pub get_call : ℤ → Request J
  get_call room = in_room "getCall" room

  pub disconnect : ℤ → Request J
  disconnect room = in_room "disconnectCall" room

  pub update_media : Option Bool → Option Bool → Request J
  unfolding args_of with_flag
  update_media video audio = record {
    method = "updateCallMedia";
    args = args_of (with_flag "video" video (with_flag "audio" audio []));
    priority = authorized_call;
  }

  -- rtc::Api
  unfoldable pub send_description : Description → Request J
  send_description d = record {
    method = "RtcDescription";
    args = json.object (
        ("id", json.of_int d.id)
        ∷ ("description", json.of_string d.description)
        ∷ ("type", json.of_string d.type)
        ∷ []);
    priority = direct_call;
  }

  unfoldable pub send_candidate : Candidate → Request J
  send_candidate d = record {
    method = "RtcCandidate";
    args = json.object (
        ("id", json.of_int d.id)
        ∷ ("candidate", json.of_string d.candidate)
        ∷ ("mid", json.of_string d.mid)
        ∷ []);
    priority = direct_call;
  }
