-- ===== src/Core/IdentifyingModel/ById.antt =====
-- `setData(id, value, role)` of lib/core/models/identifyingmodel.h.
use chat_up.Base.{
  ℕ, Bool, true, false, not, ◌&&◌, Option, none, some, List, [], ◌∷◌, ◌++◌, ℤ, pos, negsuc, ◌==◌,
  int_eq, nat_beq, if◌then◌else◌, length, get_elem?, set,
}
use chat_up.Base.Map
use chat_up.Base.Map.{Map}
use chat_up.Core.Toolkit.{Toolkit}
use chat_up.Core.IdentifyingModel.{
  IdentifyingModel, ItemType, Signal, data_changed, data_changed_invalid, id_role, row_at,
}

module _ {T V : Type 0} (kit : Toolkit V) (kind : ItemType T V) where
  -- index(_index[id]) makes an entry for a missing id
  touch : ℤ → Map ℤ ℤ → Map ℤ ℤ
  unfolding row_at
  touch i m = Map.insert i (row_at i m) m

  rename : ℤ → V → ℕ → Map ℤ ℤ → Map ℤ ℤ
  unfolding row_at
  rename i v role m =
      if nat_beq role id_role && kit.can_int v && not (i == kit.to_int v)
      then Map.erase i (Map.insert (kit.to_int v) (row_at i m) m)
      else m

  changed_signal : Option ℕ → Signal
  changed_signal none = data_changed_invalid
  changed_signal (some r) = data_changed r

  edit_by_id : ℤ → V → ℕ → ℕ → T × Bool → IdentifyingModel T → IdentifyingModel T × Bool
  unfolding touch rename changed_signal row_at
  edit_by_id i v role at (t, true) m =
      let renamed = rename i v role m.index in
      (
        record {
          items = set m.items at t;
          index = touch i renamed;
          signals =
              m.signals ++ changed_signal (kit.index (length m.items) (row_at i renamed)) ∷ [];
        },
        true,
      )
  edit_by_id i v role at (t, false) m = (record m { items = set m.items at t }, false)

  -- _data[n]; `none` is undefined behaviour
  at_int : {A : Type 0} → ℤ → List A → Option (ℕ × A)
  at_int (pos n) xs = elim (get_elem? xs n) [ none ↦ none | some a ↦ some (n, a) ]
  at_int (negsuc n) xs = none

  -- setData(id, value, role), which edits the item at the row numbered `id`. `none` is undefined
  -- behaviour: that row is out of range.
  pub set_data_by_id : ℤ → V → ℕ → IdentifyingModel T → Option (IdentifyingModel T × Bool)
  unfolding edit_by_id at_int
  set_data_by_id i v role m =
      if Map.contains i m.index
      then elim (at_int i m.items) [
        | none ↦ none
        | some (n, t) ↦ some (edit_by_id i v role n (kind.edit t v role) m)
      ]
      else some (m, false)
