-- ===== src/Network/MessageController.antt =====
-- lib/network/controllers/messagecontroller.cpp: the messages of each room that the client shows. The
-- model of a room is held by `history` itself, since nothing else changes it. The current user and
-- the time are arguments; the call of the server in `create` and `load` is left out.
pub mod Posts
mod Tests
use chat_up.Base.{
  ℕ, suc, Bool, true, false, ◌||◌, Option, none, some, List, [], ◌∷◌, ◌++◌, String, ℤ, pos, negsuc,
  int_eq, ◌==◌, if◌then◌else◌,
}
use chat_up.Base.Map
use chat_up.Base.Map.{Map}
use chat_up.Core.Values.{Values}
use chat_up.Core.Message.{MessageData, kind, invalid_id}
use chat_up.Core.IdentifyingModel.{
  IdentifyingModel, empty, id_to_index, set_data, set_item, insert_rows, insert_data, insert_range,
  row_count,
}

pub record MessageController (D B : Type 0) : Type 0 where
  pub history : Map ℤ (IdentifyingModel (MessageData D B))
  pub temp_message_counter : ℕ

abbrev pub id_role : ℕ
id_role = 0

abbrev pub user_id_role : ℕ
user_id_role = 1

abbrev pub body_role : ℕ
body_role = 2

abbrev pub time_role : ℕ
time_role = 3

abbrev pub message_index_role : ℕ
message_index_role = 4

module _ {D B : Type 0} where
  pub init : MessageController D B
  init = record { history = Map.empty; temp_message_counter = 1 }

  -- model(roomID), and the `if` of `create` and of the handler: a room without a model gets one
  pub model : ℤ → MessageController D B → IdentifyingModel (MessageData D B)
  model room c = elim (Map.lookup room c.history) [ none ↦ empty | some m ↦ m ]

  pub keep : ℤ → IdentifyingModel (MessageData D B) → MessageController D B → MessageController D B
  keep room m c = record c { history = Map.insert room m c.history }

  pub reset : MessageController D B → MessageController D B
  reset c = record c { history = Map.empty }

module _ (values : Values) where
  open values use {V, kit, Time, Bytes}

  -- The handler of "postMessage".
  pub on_post : MessageData Time Bytes → MessageController Time Bytes → MessageController Time Bytes
  unfolding model keep
  on_post mess c =
      if mess.id == invalid_id || mess.room_id == pos 0
      then c
      else keep mess.room_id (insert_data kit (kind values) (pos 0) mess (model mess.room_id c)).0 c

  put :
      Option ℕ
      → V
      → ℕ
      → IdentifyingModel (MessageData Time Bytes)
      → IdentifyingModel (MessageData Time Bytes)
  put index v role m = (set_data kit (kind values) index v role m).0

  -- The message that `create` shows until the server answers, under a negative id.
  pub draft :
      String
      → ℤ
      → ℤ
      → Time
      → IdentifyingModel (MessageData Time Bytes)
      → IdentifyingModel (MessageData Time Bytes)
  unfolding put
  draft body temp user now m =
      let inserted = (insert_rows kit (kind values) (pos 0) (pos 1) m).0 in
      let index = kit.index (row_count kit (kind values) inserted) (pos 0) in
      let with_body = put index (values.of_string body) body_role inserted in
      let with_id = put index (kit.of_int temp) id_role with_body in
      let with_user = put index (kit.of_int user) user_id_role with_id in
      let with_time = put index (values.of_time now) time_role with_user in
      put index (kit.of_int (negsuc 0)) message_index_role with_time

  -- create(body, roomID), with the temporary id. insertRow(0) returns true on every model.
  pub create :
      String → ℤ → ℤ → Time → MessageController Time Bytes → MessageController Time Bytes × ℤ
  unfolding draft model keep
  create body room user now c =
      let temp = negsuc c.temp_message_counter in
      (
        record (keep room (draft body temp user now (model room c)) c) {
          temp_message_counter = suc c.temp_message_counter;
        },
        temp,
      )

  -- The continuation of `create`, on the model that it was made for, with the id that it returns.
  pub created :
      ℤ
      → MessageData Time Bytes
      → IdentifyingModel (MessageData Time Bytes)
      → IdentifyingModel (MessageData Time Bytes) × ℤ
  created temp mess m = elim (id_to_index kit (kind values) temp m) [
    | none ↦ (m, invalid_id)
    | some r ↦
        let (n, done) = set_item kit (kind values) (some r) mess m in
        (n, if done then mess.id else invalid_id)
  ]

  backwards : List (MessageData Time Bytes) → List (MessageData Time Bytes)
  backwards [] = []
  backwards (x ∷ xs) = backwards xs ++ x ∷ []

  -- The continuation of `load`; `none` is the null pointer of a room without a model.
  pub loaded :
      (List (MessageData Time Bytes)
        → List (MessageData Time Bytes)
        → List (MessageData Time Bytes))
      → ℤ
      → ℤ
      → List (MessageData Time Bytes)
      → MessageController Time Bytes
      → Option (MessageController Time Bytes)
  unfolding backwards keep
  loaded leftover room row res c = elim (Map.lookup room c.history) [
    | none ↦ none
    | some m ↦ some (keep room (insert_range kit (kind values) leftover row (backwards res) m).0 c)
  ]
