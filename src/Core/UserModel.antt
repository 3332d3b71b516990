-- ===== src/Core/UserModel.antt =====
-- lib/core/models/usermodel.h: the model that lists handles of users. It is kept as the handles in
-- their order and the connections that tell it of a change, oldest first.
pub mod Rows
mod Tests
use chat_up.Base.{
  ℕ, zero, suc, ◌+◌, nat_beq, ltb, Bool, true, false, not, ◌&&◌, Option, none, some, List, [], ◌∷◌,
  ◌++◌, String, ℤ, length, get_elem?, if◌then◌else◌,
}
use chat_up.Core.User.{UserData, Status}

-- Model::RoleNames
abbrev pub id_role : ℕ
id_role = 0

abbrev pub name_role : ℕ
name_role = 1

abbrev pub tag_role : ℕ
tag_role = 2

abbrev pub status_role : ℕ
status_role = 3

abbrev pub handle_role : ℕ
handle_role = 4

-- What `data` returns; `none` is QVariant().
pub data UserValue : Type 0 where
  number : ℤ → UserValue
  text : String → UserValue
  state : Status → UserValue
  handle : ℕ → UserValue

-- The row that a connection reports: the captured one, or `_data.size()` at the time of the signal.
pub data Reported : Type 0 where
  captured : ℕ → Reported
  at_size : Reported

-- A connection to the three signals idChanged, nameChanged and statusChanged of a handle.
pub record Connection : Type 0 where
  pub sender : ℕ
  pub reported : Reported

pub record UserModel : Type 0 where
  pub items : List ℕ
  pub connections : List Connection

-- Model(parent)
unfoldable pub init : UserModel
init = record { items = []; connections = [] }

pub row_count : UserModel → ℕ
row_count m = length m.items

value_of : ℕ → ℕ → UserData → Option UserValue
value_of role h d =
    if nat_beq role id_role
    then some (number d.id)
    else if nat_beq role name_role
    then some (text d.name)
    else if nat_beq role tag_role
    then some (text d.tag)
    else if nat_beq role status_role
    then some (state d.status)
    else if nat_beq role handle_role
    then some (handle h)
    else none

-- data(index, role), for an index that is valid; `handles` is what the handles hold
pub data_at : List UserData → ℕ → ℕ → UserModel → Option UserValue
unfolding value_of
data_at handles row role m = elim (get_elem? m.items row) [
  | none ↦ none
  | some h ↦ elim (get_elem? handles h) [ none ↦ none | some d ↦ value_of role h d ]
]

-- The loop of `reset`, from row i on.
pub connect_rows : ℕ → List ℕ → List Connection
connect_rows i [] = []
connect_rows i (h ∷ hs) = record { sender = h; reported = captured i } ∷ connect_rows (suc i) hs

-- reset(list): the connections of before stay
pub reset : List ℕ → UserModel → UserModel
unfolding connect_rows
reset list m = record { items = list; connections = m.connections ++ connect_rows 0 list }

-- insertHandler(u)
pub insert_handler : ℕ → UserModel → UserModel
insert_handler u m = record {
  items = m.items ++ u ∷ [];
  connections = m.connections ++ record { sender = u; reported = at_size } ∷ [];
}

row_of : ℕ → Reported → ℕ
row_of size (captured i) = i
row_of size at_size = size

-- The rows for which a change of a handle emits dataChanged, with the size of the model.
pub reported_rows : ℕ → ℕ → List Connection → List ℕ
unfolding row_of
reported_rows u size [] = []
reported_rows u size (c ∷ cs) =
    let rest = reported_rows u size cs in
    if nat_beq c.sender u then row_of size c.reported ∷ rest else rest

pub changed : ℕ → UserModel → List ℕ
unfolding reported_rows row_count
changed u m = reported_rows u (row_count m) m.connections
