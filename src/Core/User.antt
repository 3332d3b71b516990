-- ===== src/Core/User.antt =====
-- lib/core/data.h and lib/core/userhandle.cpp: the data of a user, and the handle that shows it and
-- signals what changes.
use chat_up.Base.{
  Bool, true, false, List, [], ◌∷◌, ◌++◌, String, ℤ, pos, int_eq, string_eq, ◌==◌, if◌then◌else◌,
}

-- User::invalidID
abbrev pub invalid_id : ℤ
invalid_id = pos 0

pub data Status : Type 0 where
  offline online : Status

pub record UserData : Type 0 where
  pub status : Status
  pub name : String
  pub tag : String
  pub id : ℤ

pub data HandleSignal : Type 0 where
  status_changed name_changed tag_changed id_changed : HandleSignal

abbrev pub same_status : Status → Status → Bool
same_status offline offline = true
same_status online online = true
same_status offline online = false
same_status online offline = false

-- Handle(parent)
abbrev pub new_handle : UserData
new_handle = record { status = offline; name = ""; tag = ""; id = invalid_id }

unfoldable pub set_id : ℤ → UserData → UserData × List HandleSignal
set_id other d = if d.id == other then (d, []) else (record d { id = other }, id_changed ∷ [])

unfoldable pub set_tag : String → UserData → UserData × List HandleSignal
set_tag other d = if d.tag == other then (d, []) else (record d { tag = other }, tag_changed ∷ [])

unfoldable pub set_name : String → UserData → UserData × List HandleSignal
set_name other d =
    if d.name == other then (d, []) else (record d { name = other }, name_changed ∷ [])

unfoldable pub set_status : Status → UserData → UserData × List HandleSignal
set_status other d =
    if same_status d.status other
    then (d, [])
    else (record d { status = other }, status_changed ∷ [])

-- extractFromData(other)
unfoldable pub extract_from_data : UserData → UserData → UserData × List HandleSignal
unfolding set_id set_tag set_name set_status
extract_from_data other d =
    let (named, fx) = set_name other.name d in
    let (tagged, gx) = set_tag other.tag named in
    let (numbered, hx) = set_id other.id tagged in
    let (full, kx) = set_status other.status numbered in (full, fx ++ (gx ++ (hx ++ kx)))

-- copy(other)
pub copy : UserData → UserData → UserData × List HandleSignal
unfolding extract_from_data
copy other d = extract_from_data other d
