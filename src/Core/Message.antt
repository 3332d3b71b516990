-- ===== src/Core/Message.antt =====
-- lib/core/data.h and lib/core/models/messagemodel.cpp: the data of a message, and how the message
-- model reads and edits it by role.
use chat_up.Base.{
  ℕ, nat_beq, leb, Bool, true, false, ◌&&◌, none, some, String, ℤ, pos, int_eq, string_eq, ◌==◌,
  if◌then◌else◌,
}
use chat_up.Base.Map
use chat_up.Base.Map.{Map}
use chat_up.Core.Values.{Values}
use chat_up.Core.IdentifyingModel.{ItemType}

-- Message::invalidID
abbrev pub invalid_id : ℤ
invalid_id = pos 0

pub record MessageData (D B : Type 0) : Type 0 where
  pub id : ℤ
  pub user_id : ℤ
  pub room_id : ℤ
  pub time : D
  pub body : B
  pub message_index : ℕ

module _ {D B : Type 0} where
  pub is_valid : MessageData D B → Bool
  is_valid t = t.id == invalid_id

module _ (values : Values) where
  open values use {V, kit, Time, Bytes}

  unfoldable pub fresh : MessageData Time Bytes
  fresh = record {
    id = invalid_id;
    user_id = pos 0;
    room_id = pos 0;
    time = values.no_time;
    body = values.no_bytes;
    message_index = 0;
  }

  take_key : String → Map String V → V
  take_key k h = elim (Map.lookup k h) [ none ↦ kit.invalid | some v ↦ v ]

  pub from_hash : Map String V → MessageData Time Bytes → MessageData Time Bytes
  unfolding take_key
  from_hash h t = record t {
    id = kit.to_int (take_key "id" h);
    user_id = kit.to_int (take_key "userID" h);
    room_id = kit.to_int (take_key "roomID" h);
    time = values.to_time (take_key "time" h);
    body = values.to_bytes (take_key "body" h);
    message_index = values.to_uint (take_key "messageIndex" h);
  }

  pub to_hash : MessageData Time Bytes → Map String V
  to_hash t = Map.insert "messageIndex" (values.of_uint t.message_index) (
      Map.insert "body" (values.of_bytes t.body) (
        Map.insert "time" (values.of_time t.time) (
          Map.insert "userID" (kit.of_int t.user_id)
            (Map.insert "id" (kit.of_int t.id) Map.empty))))

  -- Model::read, by the number of the role: the id, the user, the body, the time, the index and the
  -- hash; another role is undefined behaviour
  unfoldable pub read : MessageData Time Bytes → ℕ → V
  unfolding to_hash
  read t role =
      if nat_beq role 0
      then kit.of_int t.id
      else if nat_beq role 1
      then kit.of_int t.user_id
      else if nat_beq role 2
      then values.of_bytes t.body
      else if nat_beq role 3
      then values.of_time t.time
      else if nat_beq role 4
      then values.of_uint t.message_index
      else if nat_beq role 5
      then values.of_hash (to_hash t)
      else kit.invalid

  -- Model::edit; a case whose value cannot be converted falls through to the next one
  unfoldable pub edit : MessageData Time Bytes → V → ℕ → MessageData Time Bytes × Bool
  unfolding from_hash
  edit t v role =
      if leb role 0 && kit.can_int v
      then (record t { id = kit.to_int v }, true)
      else if leb role 1 && kit.can_int v
      then (record t { user_id = kit.to_int v }, true)
      else if leb role 2 && values.can_bytes v
      then (record t { body = values.to_bytes v }, true)
      else if leb role 3 && values.can_time v
      then (record t { time = values.to_time v }, true)
      else if leb role 4 && values.can_uint v
      then (record t { message_index = values.to_uint v }, true)
      else if leb role 5 && values.can_hash v
      then (from_hash (values.to_hash v) t, true)
      else (t, false)

  abbrev pub kind : ItemType (MessageData Time Bytes) V
  kind = record { read = read; edit = edit; create = fresh }
