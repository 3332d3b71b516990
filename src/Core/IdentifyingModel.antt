-- ===== src/Core/IdentifyingModel.antt =====
-- lib/core/models/identifyingmodel.h: a list of items with an index from an item's id to its row. A
-- method returns the new model and its result; a guard that fails leaves the model as it was. Sizes
-- and rows are not bounded by `int`. The lock policies and `roleNames` are not modelled.
pub mod Rows
mod Index
pub mod Indexed
pub mod Keeps
pub mod Stale
pub mod Edits
pub mod Refines
pub mod ById
mod Tests
use chat_up.Base.{
  ℕ, suc, ◌+◌, ◌-◌, Bool, true, false, not, ◌||◌, ◌&&◌, Option, none, some, List, [], ◌∷◌, ◌++◌,
  map, ℤ, pos, negsuc, ◌+ℤ◌, ◌-ℤ◌, ◌==◌, int_eq, nat_beq, ltb, if◌then◌else◌, length, get_elem?,
  set, take, drop, replicate,
}
use chat_up.Base.Map
use chat_up.Base.Map.{Map}
use chat_up.Core.Toolkit.{Toolkit}

-- The virtual members of the class. Each override in the repository reads and edits an item by the
-- role alone, so the row is left out; `edit` gives the item as it leaves it, and its result.
pub record ItemType (T V : Type 0) : Type 0 where
  pub read : T → ℕ → V
  pub edit : T → V → ℕ → T × Bool
  pub create : T

-- What the attached views are told.
pub data Signal : Type 0 where
  model_reset : Signal
  rows_inserted rows_removed : ℕ → ℕ → Signal
  data_changed : ℕ → Signal
  data_changed_invalid : Signal

pub record IdentifyingModel (T : Type 0) : Type 0 where
  pub items : List T
  pub index : Map ℤ ℤ
  pub signals : List Signal

abbrev pub id_role : ℕ
id_role = 0

unfoldable pub empty : {T : Type 0} → IdentifyingModel T
empty = record { items = []; index = Map.empty; signals = [] }

-- _index[id], where a missing key gives 0
pub row_at : ℤ → Map ℤ ℤ → ℤ
row_at i m = elim (Map.lookup i m) [ none ↦ pos 0 | some r ↦ r ]

-- for (id : ids) _index[id] += count
pub bump : ℕ → List ℤ → Map ℤ ℤ → Map ℤ ℤ
unfolding row_at
bump n [] m = m
bump n (i ∷ is) m = bump n is (Map.insert i (row_at i m +ℤ pos n) m)

-- for (id : ids) _index[id] -= count
pub lower : ℕ → List ℤ → Map ℤ ℤ → Map ℤ ℤ
unfolding row_at
lower n [] m = m
lower n (i ∷ is) m = lower n is (Map.insert i (row_at i m -ℤ pos n) m)

-- for (k, id) _index[id] = row + k
pub assign_rows : ℕ → List ℤ → Map ℤ ℤ → Map ℤ ℤ
assign_rows r [] m = m
assign_rows r (i ∷ is) m = assign_rows (suc r) is (Map.insert i (pos r) m)

-- for (k, id) _index.insert({id, row + k})
pub emplace_rows : ℕ → List ℤ → Map ℤ ℤ → Map ℤ ℤ
emplace_rows r [] m = m
emplace_rows r (i ∷ is) m = emplace_rows (suc r) is (Map.emplace i (pos r) m)

module _ {T V : Type 0} (kit : Toolkit V) (kind : ItemType T V) where
  abbrev pub id_of : T → ℤ
  id_of t = kit.to_int (kind.read t id_role)

  abbrev pub ids : List T → List ℤ
  ids = map id_of

  unfoldable pub row_count : IdentifyingModel T → ℕ
  row_count m = length m.items

  pub id_to_index : ℤ → IdentifyingModel T → Option ℕ
  id_to_index i m = elim (Map.lookup i m.index) [
    | none ↦ none
    | some r ↦ kit.index (length m.items) r
  ]

  -- data(index, role)
  pub data_role : Option ℕ → ℕ → IdentifyingModel T → V
  data_role none role m = kit.invalid
  data_role (some r) role m = elim (get_elem? m.items r) [
    | none ↦ kit.invalid
    | some t ↦ kind.read t role
  ]

  -- std::optional<T> data(index)
  pub item : Option ℕ → IdentifyingModel T → Option T
  item none m = none
  item (some r) m = get_elem? m.items r

  pub reset : IdentifyingModel T → IdentifyingModel T
  reset m = record { items = []; index = Map.empty; signals = m.signals ++ model_reset ∷ [] }

  abbrev emit : Signal → IdentifyingModel T → IdentifyingModel T
  emit s m = record m { signals = m.signals ++ s ∷ [] }

  -- The item as `edit` leaves it is stored also where `edit` returns false.
  edit_row : ℕ → T × Bool → IdentifyingModel T → IdentifyingModel T × Bool
  edit_row r (t, true) m = (emit (data_changed r) (record m { items = set m.items r t }), true)
  edit_row r (t, false) m = (record m { items = set m.items r t }, false)

  -- The branch for a new id emits no signal.
  edit_id : ℕ → ℤ → ℤ → T × Bool → IdentifyingModel T → IdentifyingModel T × Bool
  edit_id r last i (t, true) m = (
    record m { items = set m.items r t; index = Map.erase last (Map.insert i (pos r) m.index) },
    true,
  )
  edit_id r last i (t, false) m = (record m { items = set m.items r t }, false)

  set_role : ℕ → T → V → ℕ → IdentifyingModel T → IdentifyingModel T × Bool
  unfolding edit_row edit_id
  set_role r t v role m =
      if nat_beq role id_role && kit.can_int v && not (id_of t == kit.to_int v)
      then edit_id r (id_of t) (kit.to_int v) (kind.edit t v role) m
      else edit_row r (kind.edit t v role) m

  -- setData(index, value, role)
  pub set_data : Option ℕ → V → ℕ → IdentifyingModel T → IdentifyingModel T × Bool
  unfolding set_role
  set_data none v role m = (m, false)
  set_data (some r) v role m =
      if not (kit.is_valid v)
      then (m, false)
      else elim (get_elem? m.items r) [ none ↦ (m, false) | some t ↦ set_role r t v role m ]

  pub reindex : ℕ → ℤ → ℤ → Map ℤ ℤ → Map ℤ ℤ
  reindex r old new m = if old == new then m else Map.erase old (Map.insert new (pos r) m)

  -- setData(index, T)
  pub set_item : Option ℕ → T → IdentifyingModel T → IdentifyingModel T × Bool
  unfolding reindex
  set_item none t m = (m, false)
  set_item (some r) t m = elim (get_elem? m.items r) [
    | none ↦ (m, false)
    | some old ↦ (
      record {
        items = set m.items r t;
        index = reindex r (id_of old) (id_of t) m.index;
        signals = m.signals ++ data_changed r ∷ [];
      },
      true,
    )
  ]

  -- The part of `insertRows` behind its guards.
  splice_rows : ℕ → ℕ → IdentifyingModel T → IdentifyingModel T
  splice_rows r n m =
      let shifted =
        if ltb (r + n) (length m.items) then bump n (ids (drop r m.items)) m.index else m.index in
      let items = take r m.items ++ (replicate n kind.create ++ drop r m.items) in
      record {
        items = items;
        index = assign_rows r (ids (take (n - r) (drop r items))) shifted;
        signals = m.signals ++ rows_inserted r (r + n - 1) ∷ [];
      }

  -- insertRows(row, count)
  pub insert_rows : ℤ → ℤ → IdentifyingModel T → IdentifyingModel T × Bool
  unfolding splice_rows
  insert_rows (pos r) (pos (suc n)) m =
      if ltb (length m.items) r then (m, false) else (splice_rows r (suc n) m, true)
  insert_rows row count m = (m, false)

  -- The part of `insertDataList` behind its guards.
  pub splice : ℕ → List T → IdentifyingModel T → IdentifyingModel T
  splice r new m =
      let shifted =
        if ltb r (length m.items)
        then bump (length new) (ids (drop r m.items)) m.index
        else m.index in
      record {
        items = take r m.items ++ (new ++ drop r m.items);
        index = assign_rows r (ids new) shifted;
        signals = m.signals ++ rows_inserted r (r + length new - 1) ∷ [];
      }

  -- insertDataList(row, in)
  pub insert_data_list : ℤ → List T → IdentifyingModel T → IdentifyingModel T × Bool
  unfolding splice
  insert_data_list (pos r) new m =
      if ltb (length m.items) r || nat_beq (length new) 0
      then (m, false)
      else (splice r new m, true)
  insert_data_list (negsuc r) new m = (m, false)

  -- insertData(row, data)
  pub insert_data : ℤ → T → IdentifyingModel T → IdentifyingModel T × Bool
  unfolding insert_data_list
  insert_data row t = insert_data_list row (t ∷ [])

  -- The part of `removeRows` behind its guards: the id of the first row alone is erased.
  pub cut : ℕ → ℕ → T → IdentifyingModel T → IdentifyingModel T
  cut r n t m = record {
    items = take r m.items ++ drop (r + n) m.items;
    index = lower n (ids (drop (r + n) m.items)) (Map.erase (id_of t) m.index);
    signals = m.signals ++ rows_removed r (r + n - 1) ∷ [];
  }

  -- removeRows(row, count)
  pub remove_rows : ℤ → ℤ → IdentifyingModel T → IdentifyingModel T × Bool
  unfolding cut
  remove_rows (pos r) (pos (suc n)) m =
      if ltb (length m.items) (r + suc n)
      then (m, false)
      else elim (get_elem? m.items r) [ none ↦ (m, false) | some t ↦ (cut r (suc n) t m, true) ]
  remove_rows row count m = (m, false)

  -- The predicate of `std::ranges::remove_if` in `insertRange`: true for ids that are new.
  partition_known : Map ℤ ℤ → List T → List T × List T
  partition_known m [] = ([], [])
  partition_known m (t ∷ ts) =
      let (known, new) = partition_known m ts in
      if Map.contains (id_of t) m then (t ∷ known, new) else (known, t ∷ new)

  -- insertRange(row, begin, end). What `remove_if` leaves behind the items that it keeps is not
  -- specified by the standard, and comes as `leftover kept removed`.
  pub insert_range :
      (List T → List T → List T) → ℤ → List T → IdentifyingModel T → IdentifyingModel T × Bool
  unfolding partition_known
  insert_range leftover (pos r) range m =
      let (known, new) = partition_known m.index range in
      let tail = leftover known new in
      if ltb (length m.items) r || nat_beq (length tail) 0 then (m, false) else (
        record {
          items = take r m.items ++ (tail ++ drop r m.items);
          index = emplace_rows r (ids tail) m.index;
          signals = m.signals ++ rows_inserted r (r + (length tail - 1)) ∷ [];
        },
        true,
      )
  insert_range leftover (negsuc r) range m = (m, false)
