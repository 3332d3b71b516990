-- ===== src/Network/GroupController/Tests.antt =====
-- The theorems on the group controller at one group (lib/network/controllers/groupcontroller.cpp).
use chat_up.Base.{
  ℕ, ◌≡◌, ◌≢◌, refl, ap, true, false, none, some, [], ◌∷◌, String, pos, get_elem?, arith,
}
use chat_up.Core.Sample.{sample}
use chat_up.Core.IdentifyingModel.{IdentifyingModel, empty, id_of, insert_data_list}
use chat_up.Core.IdentifyingModel.Indexed.{IsIndexed}
use chat_up.Core.IdentifyingModel.Keeps.{
  empty-IsIndexed, insert_data_list-IsIndexed, id_to_index_iff,
}
use chat_up.Core.Group.{ExtendedData, kind, read, fresh}
use chat_up.Core.Message.{MessageData}
use chat_up.Network.GroupController.{
  GroupController, GroupUpdate, index_of, on_message, set_local_readings, timeout,
}
use chat_up.Network.GroupController.Puts.{At}
use chat_up.Network.GroupController.Groups.{on_message-At, timeout-set_local_readings}

abbrev group : ℕ → String → ExtendedData sample.Time
group n name = record (fresh sample) { id = pos n; name = name; local_readings = pos 3 }

abbrev shown : IdentifyingModel (ExtendedData sample.Time)
shown = (insert_data_list sample.kit (kind sample) (pos 0) (group 4 "family" ∷ []) empty).0

shown_facts : (shown.items ≡ group 4 "family" ∷ []) × IsIndexed sample.kit (kind sample) shown
unfolding empty
shown_facts =
    let (done, items, v) =
      insert_data_list-IsIndexed sample.kit (kind sample) empty 0 (group 4 "family" ∷ [])
        (empty-IsIndexed sample.kit (kind sample)) (omega arith) (omega arith) (refl, tt)
        (refl, tt) in
    (items, v)

shown_row : get_elem? shown.items 0 ≡ some (group 4 "family")
shown_row = ap (λ xs. get_elem? xs 0) shown_facts.0

group_id : (n : ℕ) (name : String) → id_of sample.kit (kind sample) (group n name) ≡ pos n
unfolding read
group_id n name = sample.kit.to_int-of_int (pos n)

shown_index : index_of sample (pos 4) shown ≡ some 0
shown_index =
    (id_to_index_iff sample.kit (kind sample) shown (pos 4) 0 shown_facts.1).1
      (group 4 "family", shown_row, group_id 4 "family")

abbrev hello : MessageData sample.Time sample.Bytes
hello = record {
  id = pos 90;
  user_id = pos 7;
  room_id = pos 4;
  time = sample.no_time;
  body = sample.no_bytes;
  message_index = 1;
}

fresh_count : (group 4 "family").message_count ≡ pos 0
unfolding fresh
fresh_count = refl

on_message-At_example :
    At sample shown 0 (on_message sample hello shown) (record (group 4 "family") {
      message_count = pos 1;
      last_body = sample.to_string (sample.of_bytes hello.body);
      last_message_time = hello.time;
      last_sender = pos 7;
    })
on_message-At_example =
    on_message-At sample shown hello 0 0 (group 4 "family") shown_facts.1 shown_row refl fresh_count
      (omega arith)

abbrev renamed : GroupUpdate
renamed = record {
  id = pos 4;
  name = some "friends";
  tag = none;
  message_count = some (pos 12);
  foreign_readings = none;
  local_readings = none;
}

abbrev quiet : GroupController sample.Time
quiet = record { model = shown; readings_update_queue = []; timer_is_active = false }

timeout-set_local_readings_example :
    let d = (set_local_readings sample (pos 4) 9 quiet).0 in
    let (fired, told) = timeout sample d in
    At sample shown 0 d.model (record (group 4 "family") { local_readings = pos 9 })
    × (d.readings_update_queue ≡ pos 4 ∷ [])
    × (d.timer_is_active ≡ true)
    × (told ≡ record { room_id = pos 4; count = pos 9 } ∷ [])
    × (fired ≡ record d { readings_update_queue = []; timer_is_active = false })
    × ((timeout sample fired).1 ≡ [])
timeout-set_local_readings_example =
    timeout-set_local_readings sample quiet (pos 4) 9 3 0 (group 4 "family") shown_facts.1 shown_row
      refl refl (omega arith) (omega arith) refl

fresh_id : id_of sample.kit (kind sample) (fresh sample) ≡ pos 0
unfolding read fresh
fresh_id = sample.kit.to_int-of_int (pos 0)

zero_four : pos 0 ≢ pos 4
zero_four e = cc

five_four : pos 5 ≢ pos 4
five_four e = cc
