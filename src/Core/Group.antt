-- ===== src/Core/Group.antt =====
-- lib/core/data.h, data.cpp and lib/core/models/groupmodel.cpp: the data of a group, and how the
-- group model reads and edits it by role.
use chat_up.Base.{
  ℕ, nat_beq, Bool, true, false, not, ◌&&◌, none, some, String, ℤ, pos, int_eq, string_eq, ◌==◌,
  if◌then◌else◌,
}
use chat_up.Base.Map
use chat_up.Base.Map.{Map}
use chat_up.Core.Values.{Values}
use chat_up.Core.IdentifyingModel.{ItemType}

-- Group::invalidID
abbrev pub invalid_id : ℤ
invalid_id = pos 0

-- Model::RoleNames
abbrev pub id_role : ℕ
id_role = 0

abbrev pub name_role : ℕ
name_role = 1

abbrev pub tag_role : ℕ
tag_role = 2

abbrev pub hash_role : ℕ
hash_role = 3

abbrev pub message_count_role : ℕ
message_count_role = 5

abbrev pub foreign_readings_role : ℕ
foreign_readings_role = 6

abbrev pub local_readings_role : ℕ
local_readings_role = 7

abbrev pub last_body_role : ℕ
last_body_role = 8

abbrev pub last_sender_role : ℕ
last_sender_role = 9

abbrev pub last_time_role : ℕ
last_time_role = 10

pub record ExtendedData (D : Type 0) : Type 0 where
  pub id : ℤ
  pub message_count : ℤ
  pub foreign_readings : ℤ
  pub local_readings : ℤ
  pub last_sender : ℤ
  pub last_message_time : D
  pub last_body : String
  pub name : String
  pub tag : String

module _ (values : Values) where
  open values use {V, kit, Time}

  -- T() of the model's create(); a value initialisation, so `lastSender` is 0 as well
  unfoldable pub fresh : ExtendedData Time
  fresh = record {
    id = invalid_id;
    message_count = pos 0;
    foreign_readings = pos 0;
    local_readings = pos 0;
    last_sender = pos 0;
    last_message_time = values.no_time;
    last_body = "";
    name = "";
    tag = "";
  }

  -- other.take(key): an invalid QVariant for a missing key
  take_key : String → Map String V → V
  take_key k h = elim (Map.lookup k h) [ none ↦ kit.invalid | some v ↦ v ]

  pub from_hash : Map String V → ExtendedData Time → ExtendedData Time
  unfolding take_key
  from_hash h t = record t {
    id = kit.to_int (take_key "id" h);
    name = values.to_string (take_key "name" h);
    tag = values.to_string (take_key "tag" h);
    message_count = kit.to_int (take_key "messageCount" h);
  }

  put_text : String → String → Map String V → Map String V
  put_text k s h = if s == "" then h else Map.insert k (values.of_string s) h

  pub to_hash : ExtendedData Time → Map String V
  unfolding put_text
  to_hash t = put_text "tag" t.tag (
      put_text "name" t.name (
        Map.insert "messageCount" (kit.of_int t.message_count)
          (Map.insert "id" (kit.of_int t.id) Map.empty)))

  -- Model::read; for another role the function ends without a return, which is undefined behaviour
  unfoldable pub read : ExtendedData Time → ℕ → V
  unfolding to_hash
  read t role =
      if nat_beq role id_role
      then kit.of_int t.id
      else if nat_beq role name_role
      then values.of_string t.name
      else if nat_beq role hash_role
      then values.of_hash (to_hash t)
      else if nat_beq role tag_role
      then values.of_string t.tag
      else if nat_beq role message_count_role
      then kit.of_int t.message_count
      else if nat_beq role local_readings_role
      then kit.of_int t.local_readings
      else if nat_beq role foreign_readings_role
      then kit.of_int t.foreign_readings
      else if nat_beq role last_body_role
      then values.of_string t.last_body
      else if nat_beq role last_time_role
      then values.of_time t.last_message_time
      else if nat_beq role last_sender_role
      then kit.of_int t.last_sender
      else kit.invalid

  -- Model::edit; every case that does not return leaves the switch
  unfoldable pub edit : ExtendedData Time → V → ℕ → ExtendedData Time × Bool
  unfolding from_hash
  edit t v role =
      if nat_beq role id_role && kit.can_int v && not (kit.to_int v == t.id)
      then (record t { id = kit.to_int v }, true)
      else if nat_beq role name_role && values.can_string v
      then (record t { name = values.to_string v }, true)
      else if nat_beq role tag_role && values.can_string v
      then (record t { tag = values.to_string v }, true)
      else if nat_beq role hash_role && values.can_hash v
      then (from_hash (values.to_hash v) t, true)
      else if nat_beq role message_count_role && kit.can_int v
      then (record t { message_count = kit.to_int v }, true)
      else if nat_beq role foreign_readings_role && kit.can_int v
      then (record t { foreign_readings = kit.to_int v }, true)
      else if nat_beq role local_readings_role && kit.can_int v
      then (record t { local_readings = kit.to_int v }, true)
      else if nat_beq role last_body_role && values.can_string v
      then (record t { last_body = values.to_string v }, true)
      else if nat_beq role last_time_role && values.can_time v
      then (record t { last_message_time = values.to_time v }, true)
      else if nat_beq role last_sender_role && kit.can_int v
      then (record t { last_sender = kit.to_int v }, true)
      else (t, false)

  abbrev pub kind : ItemType (ExtendedData Time) V
  kind = record { read = read; edit = edit; create = fresh }
