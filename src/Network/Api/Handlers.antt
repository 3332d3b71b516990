-- ===== src/Network/Api/Handlers.antt =====
-- lib/network/api: what each `handle` reads of the arguments of a call that the server makes, and what
-- the continuation of an `exec` reads of its answer.
pub mod Relayed
pub mod Lists
use chat_up.Base.{
  Bool, true, false, Option, none, some, List, [], ◌∷◌, map, String, ℤ, pos, string_eq, ◌==◌,
  if◌then◌else◌,
}
use chat_up.Core.User
use chat_up.Core.User.{UserData, Status, offline, online, new_handle}
use chat_up.Core.Group
use chat_up.Core.Group.{ExtendedData}
use chat_up.Core.Message.{MessageData}
use chat_up.Core.Participate.{ParticipateData, new_participate}
use chat_up.Network.Json.{Json}
use chat_up.Network.GroupController.{GroupUpdate}
use chat_up.Network.UserController.{UserUpdate}
use chat_up.Network.CallController.{MediaUpdate}
use chat_up.Network.Api.{run, run_all, read_value, read_present, read_needed}
use chat_up.Network.Api.Data.{
  Texts, user_from_json, extended_from_json, message_from_json, participate_from_json,
}
use chat_up.Network.Api.Requests.{Description, Candidate}

-- Group::Api::AddUser::Desc
pub record AddedUser : Type 0 where
  pub room_id : ℤ
  pub user_id : ℤ

module _ (json : Json) where
  open json use {J}

  -- rtc::Api: an argument that cannot be read leaves the later ones as they are by default
  unfoldable pub description_of : J → Description
  description_of j =
      run
        (read_needed json json.get_int j "id" (λ n d. record d { id = n })
          ∷ read_needed json json.get_string j "description" (λ s d. record d { description = s })
          ∷ read_needed json json.get_string j "type" (λ s d. record d { type = s })
          ∷ [])
        (record { id = pos 0; description = ""; type = "" })

  unfoldable pub candidate_of : J → Candidate
  candidate_of j =
      run
        (read_needed json json.get_int j "id" (λ n d. record d { id = n })
          ∷ read_needed json json.get_string j "mid" (λ s d. record d { mid = s })
          ∷ read_needed json json.get_string j "candidate" (λ s d. record d { candidate = s })
          ∷ [])
        (record { id = pos 0; candidate = ""; mid = "" })

  -- Call::Api::UpdateCallMedia; `none` does not call the handler
  pub media_update_of : J → Option MediaUpdate
  media_update_of j =
      run_all
        (read_needed json json.get_bool j "audio" (λ b d. record d { audio = b })
          ∷ read_needed json json.get_bool j "video" (λ b d. record d { video = b })
          ∷ read_needed json json.get_int j "roomID" (λ n d. record d { room_id = n })
          ∷ read_needed json json.get_int j "userID" (λ n d. record d { user_id = n })
          ∷ [])
        (record { video = false; audio = false; user_id = pos 0; room_id = pos 0 })

  -- Group::Api::AddUser; `none` is an exception that leaves the handler
  pub added_user_of : J → Option AddedUser
  added_user_of j =
      run_all
        (read_value json json.get_int j "roomID" Group.invalid_id (λ n d. record d { room_id = n })
          ∷ read_value json json.get_int j "userID" User.invalid_id
              (λ n d. record d { user_id = n })
          ∷ [])
        (record { room_id = pos 0; user_id = pos 0 })

  -- Group::Api::Update; `none` does not call the handler
  pub group_update_of : J → Option GroupUpdate
  group_update_of j =
      run_all
        (read_needed json json.get_int j "id" (λ n d. record d { id = n })
          ∷ read_present json json.get_string j "tag" (λ s d. record d { tag = some s })
          ∷ read_present json json.get_string j "name" (λ s d. record d { name = some s })
          ∷ read_present json json.get_int j "localReadings"
              (λ n d. record d { local_readings = some n })
          ∷ read_present json json.get_int j "foreignReadings"
              (λ n d. record d { foreign_readings = some n })
          ∷ read_present json json.get_int j "messageCount"
              (λ n d. record d { message_count = some n })
          ∷ [])
        (record {
          id = Group.invalid_id;
          name = none;
          tag = none;
          message_count = none;
          foreign_readings = none;
          local_readings = none;
        })

  -- `res["status"] == "online"` on whatever stands there
  some_status : J → Option Status
  some_status v = elim (json.get_string v) [
    | none ↦ some offline
    | some s ↦ some (if s == "online" then online else offline)
  ]

  -- User::Api::Update: without a readable id the handler reads an uninitialised one, and `none` is that
  -- undefined behaviour
  pub user_update_of : J → Option UserUpdate
  unfolding some_status
  user_update_of j = elim (json.at j "id") [
    | none ↦ none
    | some v ↦ elim (json.get_int v) [
      | none ↦ none
      | some id ↦ some (
          run
            (read_present json json.get_string j "tag" (λ s d. record d { tag = some s })
              ∷ read_present json json.get_string j "name" (λ s d. record d { name = some s })
              ∷ read_present json some_status j "status" (λ s d. record d { status = some s })
              ∷ [])
            (record { id = id; name = none; tag = none; status = none }))
    ]
  ]

  -- The loop of GetUsers and User::Find over an answer.
  pub users_of : J → List UserData
  users_of res = map (λ j. user_from_json json j new_handle) (json.items res)

  -- Call::Api::Get; an answer that is neither an object nor null throws, and reads as no participants
  pub participants_of : J → List ParticipateData
  participants_of res = elim (json.at res "participants") [
    | none ↦ []
    | some list ↦ map (λ j. participate_from_json json j new_participate) (json.items list)
  ]

  module _ {Time Bytes : Type 0} (texts : Texts Time Bytes) where
    -- The loop of Group::Api::GetAll, on data that are as `fresh` before.
    pub groups_of : ExtendedData Time → J → List (ExtendedData Time)
    groups_of fresh res = map (λ j. extended_from_json json texts j fresh) (json.items res)

    -- The loop of GetHistory and GetByIndex.
    pub messages_of : MessageData Time Bytes → J → List (MessageData Time Bytes)
    messages_of fresh res = map (λ j. message_from_json json texts j fresh) (json.items res)
