-- ===== src/Network/GroupController.antt =====
-- lib/network/controllers/groupcontroller.cpp: the groups that the client shows, the messages that
-- arrive for them, and the readings that are reported to the server. A method is a function on the
-- state; the calls of the server that it makes come beside, in order.
pub mod Puts
pub mod Groups
pub mod Updates
pub mod Added
mod Tests
use chat_up.Base.{
  ℕ, zero, suc, ◌+◌, ◌-◌, ◌%◌, ◌^◌, Bool, true, false, Option, none, some, List, [], ◌∷◌, ◌++◌,
  String, ℤ, pos, negsuc, ◌+ℤ◌, leb, ltb, if◌then◌else◌,
}
use chat_up.Core.Values.{Values}
use chat_up.Core.Group.{
  ExtendedData, kind, name_role, tag_role, message_count_role, foreign_readings_role,
  local_readings_role, last_body_role, last_sender_role, last_time_role,
}
use chat_up.Core.Message.{MessageData}
use chat_up.Core.IdentifyingModel.{
  IdentifyingModel, id_to_index, data_role, set_data, set_item, insert_rows, insert_range,
  row_count,
}

pub record GroupController (D : Type 0) : Type 0 where
  pub model : IdentifyingModel (ExtendedData D)
  pub readings_update_queue : List ℤ
  pub timer_is_active : Bool

-- Message::Api::MarkRead
pub record MarkRead : Type 0 where
  pub room_id : ℤ
  pub count : ℤ

-- Group::Api::Update::GroupUpdate
pub record GroupUpdate : Type 0 where
  pub id : ℤ
  pub name : Option String
  pub tag : Option String
  pub message_count : Option ℤ
  pub foreign_readings : Option ℤ
  pub local_readings : Option ℤ

-- GroupUpdate::extractTo
pub extract_to : {D : Type 0} → GroupUpdate → ExtendedData D → ExtendedData D
extract_to upd t = record t {
  id = upd.id;
  tag = elim upd.tag [ none ↦ t.tag | some s ↦ s ];
  name = elim upd.name [ none ↦ t.name | some s ↦ s ];
  foreign_readings = elim upd.foreign_readings [ none ↦ t.foreign_readings | some n ↦ n ];
  local_readings = elim upd.local_readings [ none ↦ t.local_readings | some n ↦ n ];
  message_count = elim upd.message_count [ none ↦ t.message_count | some n ↦ n ];
}

-- What `setLocalReadings` returns: a ready future, or one with the exception.
pub data Answer : Type 0 where
  ready unknown_room : Answer

-- A value of `int` as one of `size_t`.
pub to_size : ℤ → ℕ
to_size (pos n) = n % 2 ^ 64
to_size (negsuc n) = 2 ^ 64 - 1 - n % 2 ^ 64

-- A value of `size_t` as one of `qint32`.
pub to_qint32 : ℕ → ℤ
to_qint32 n = let w = n % 2 ^ 32 in if ltb w (2 ^ 31) then pos w else negsuc (2 ^ 32 - 1 - w)

module _ (values : Values) where
  open values use {V, kit, Time, Bytes}

  -- set_data on the group model, without its result
  abbrev pub put :
      Option ℕ → V → ℕ → IdentifyingModel (ExtendedData Time) → IdentifyingModel (ExtendedData Time)
  put index v role m = (set_data kit (kind values) index v role m).0

  abbrev pub index_of : ℤ → IdentifyingModel (ExtendedData Time) → Option ℕ
  index_of = id_to_index kit (kind values)

  abbrev pub int_data : ℕ → ℕ → IdentifyingModel (ExtendedData Time) → ℤ
  int_data r role m = kit.to_int (data_role kit (kind values) (some r) role m)

  pub increment_message_count :
      ℤ → ℕ → IdentifyingModel (ExtendedData Time) → IdentifyingModel (ExtendedData Time) × Bool
  unfolding to_size to_qint32
  increment_message_count room count m = elim (index_of room m) [
    | none ↦ (m, false)
    | some r ↦
        let sum = (count + to_size (int_data r message_count_role m)) % 2 ^ 64 in
        set_data kit (kind values) (some r) (kit.of_int (to_qint32 sum)) message_count_role m
  ]

  -- The handler of "addRoom", and the continuation of `create`: insertRow(0), then setData(index(0), group).
  pub add_group :
      ExtendedData Time
      → IdentifyingModel (ExtendedData Time)
      → IdentifyingModel (ExtendedData Time)
  add_group group m =
      let n = (insert_rows kit (kind values) (pos 0) (pos 1) m).0 in
      (set_item kit (kind values) (kit.index (row_count kit (kind values) n) (pos 0)) group n).0

  -- The continuation of `create`; `none` is the exception for the id 0.
  pub created :
      ExtendedData Time
      → IdentifyingModel (ExtendedData Time)
      → Option (IdentifyingModel (ExtendedData Time) × ℤ)
  unfolding add_group
  created res m = elim res.id [ pos zero ↦ none | _ ↦ some (add_group res m, res.id) ]

  message_arrived :
      MessageData Time Bytes
      → ℕ
      → IdentifyingModel (ExtendedData Time)
      → IdentifyingModel (ExtendedData Time)
  message_arrived mess r m =
      let count = int_data r message_count_role m +ℤ pos 1 in
      let counted = put (some r) (kit.of_int count) message_count_role m in
      let with_body = put (some r) (values.of_bytes mess.body) last_body_role counted in
      let with_time = put (some r) (values.of_time mess.time) last_time_role with_body in
      put (some r) (kit.of_int mess.user_id) last_sender_role with_time

  -- The handler of "postMessage". The sum overflows for a count of 2^31 - 1, which is undefined.
  pub on_message :
      MessageData Time Bytes
      → IdentifyingModel (ExtendedData Time)
      → IdentifyingModel (ExtendedData Time)
  unfolding message_arrived
  on_message mess m = elim (index_of mess.room_id m) [
    | none ↦ m
    | some r ↦ message_arrived mess r m
  ]

  pub put_text :
      Option String
      → ℕ
      → ℕ
      → IdentifyingModel (ExtendedData Time)
      → IdentifyingModel (ExtendedData Time)
  put_text none role r m = m
  put_text (some s) role r m = put (some r) (values.of_string s) role m

  pub put_int :
      Option ℤ → ℕ → ℕ → IdentifyingModel (ExtendedData Time) → IdentifyingModel (ExtendedData Time)
  put_int none role r m = m
  put_int (some n) role r m = put (some r) (kit.of_int n) role m

  -- The handler of "updateRoom".
  pub on_update :
      GroupUpdate → IdentifyingModel (ExtendedData Time) → IdentifyingModel (ExtendedData Time)
  unfolding put_text put_int
  on_update upd m = elim (index_of upd.id m) [
    | none ↦ m
    | some r ↦ put_int upd.message_count message_count_role r (
        put_int upd.local_readings local_readings_role r (
          put_int upd.foreign_readings foreign_readings_role r
            (put_text upd.name name_role r (put_text upd.tag tag_role r m))))
  ]

  -- The continuation of `load` and `initialize`, with what `std::ranges::remove_if` leaves.
  pub loaded :
      (List (ExtendedData Time) → List (ExtendedData Time) → List (ExtendedData Time))
      → List (ExtendedData Time)
      → IdentifyingModel (ExtendedData Time)
      → IdentifyingModel (ExtendedData Time)
  loaded leftover rooms m = (insert_range kit (kind values) leftover (pos 0) rooms m).0

  put_known :
      ℤ → V → ℕ → IdentifyingModel (ExtendedData Time) → IdentifyingModel (ExtendedData Time)
  put_known room v role m = elim (index_of room m) [ none ↦ m | some r ↦ put (some r) v role m ]

  pub set_last_sender :
      ℤ → ℤ → IdentifyingModel (ExtendedData Time) → IdentifyingModel (ExtendedData Time)
  unfolding put_known
  set_last_sender room id m = put_known room (kit.of_int id) last_sender_role m

  pub set_last_message_body :
      ℤ → String → IdentifyingModel (ExtendedData Time) → IdentifyingModel (ExtendedData Time)
  unfolding put_known
  set_last_message_body room body m = put_known room (values.of_string body) last_body_role m

  pub set_last_message_time :
      ℤ → Time → IdentifyingModel (ExtendedData Time) → IdentifyingModel (ExtendedData Time)
  unfolding put_known
  set_last_message_time room time m = put_known room (values.of_time time) last_time_role m

  read_to : ℤ → ℕ → ℕ → GroupController Time → GroupController Time × Answer
  unfolding to_size
  read_to room count r c =
      if leb count (to_size (int_data r local_readings_role c.model)) then (c, ready) else (
        record {
          model = put (some r) (values.of_uint (count % 2 ^ 32)) local_readings_role c.model;
          readings_update_queue = c.readings_update_queue ++ room ∷ [];
          timer_is_active = true;
        },
        ready,
      )

  pub set_local_readings : ℤ → ℕ → GroupController Time → GroupController Time × Answer
  unfolding read_to
  set_local_readings room count c = elim (index_of room c.model) [
    | none ↦ (c, unknown_room)
    | some r ↦ read_to room count r c
  ]

  mark_all : List ℤ → IdentifyingModel (ExtendedData Time) → List MarkRead
  mark_all [] m = []
  mark_all (room ∷ rooms) m =
      let rest = mark_all rooms m in
      elim (index_of room m) [
        | none ↦ rest
        | some r ↦ record { room_id = room; count = int_data r local_readings_role m } ∷ rest
      ]

  -- The timer's callback.
  pub timeout : GroupController Time → GroupController Time × List MarkRead
  unfolding mark_all
  timeout c = (
    record c { readings_update_queue = []; timer_is_active = false },
    mark_all c.readings_update_queue c.model,
  )
