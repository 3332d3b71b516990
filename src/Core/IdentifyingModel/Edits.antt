-- ===== src/Core/IdentifyingModel/Edits.antt =====
-- `setData` with a role on one row of an IdentifyingModel (lib/core/models/identifyingmodel.h).
use chat_up.Base.{
  ℕ, zero, suc, ◌≡◌, refl, ap, ap₂, Option, none, Bool, true, false, some, List, [], ◌∷◌, ◌++◌, ℤ,
  int_eq, nat_beq, length, get_elem?, set, arith,
}
use chat_up.Base.Map
use chat_up.Base.Map.{Map}
use chat_up.Core.Toolkit.{Toolkit}
use chat_up.Core.IdentifyingModel.{
  insert_data, insert_data_list, IdentifyingModel, ItemType, id_role, id_to_index, data_role,
  set_data, set_role, edit_row, data_changed,
}

pub set-same :
    {A : Type 0} (xs : List A) (r : ℕ) (a : A) → get_elem? xs r ≡ some a → xs ≡ set xs r a
set-same [] r a e = refl
set-same (x ∷ xs) zero a e = ground arith
set-same (x ∷ xs) (suc r) a e = ap (λ q. x ∷ q) (set-same xs r a e)

module _ {T V : Type 0} (kit : Toolkit V) (kind : ItemType T V) where
  -- An edit that succeeds, in a role other than the id's.
  pub set_data_lem :
      (m : IdentifyingModel T) (r : ℕ) (t u : T) (v : V) (role : ℕ)
      → get_elem? m.items r ≡ some t
      → kit.is_valid v ≡ true
      → nat_beq role id_role ≡ false
      → kind.edit t v role ≡ (u, true)
      → set_data kit kind (some r) v role m
        ≡ (record m { items = set m.items r u; signals = m.signals ++ data_changed r ∷ [] }, true)
  unfolding set_data set_role edit_row
  set_data_lem m r t u v role e valid other ed = rw (valid, e, other, ed)

  edit_row_lem :
      (r : ℕ) (p : T × Bool) (m : IdentifyingModel T)
      → let n = (edit_row kit kind r p m).0 in (n.items ≡ set m.items r p.0) × (n.index ≡ m.index)
  unfolding edit_row
  edit_row_lem r (t, true) m = (refl, refl)
  edit_row_lem r (t, false) m = (refl, refl)

  -- An edit in a role other than the id's, whatever it returns.
  pub set_data_row :
      (m : IdentifyingModel T) (r : ℕ) (t : T) (v : V) (role : ℕ)
      → get_elem? m.items r ≡ some t
      → kit.is_valid v ≡ true
      → nat_beq role id_role ≡ false
      → let n = (set_data kit kind (some r) v role m).0 in
        (n.items ≡ set m.items r (kind.edit t v role).0) × (n.index ≡ m.index)
  unfolding set_data set_role
  set_data_row m r t v role e valid other =
      rw (valid, e, other) (edit_row_lem r (kind.edit t v role) m)

  pub data_role_lem :
      (m : IdentifyingModel T) (r : ℕ) (t : T) (role : ℕ)
      → get_elem? m.items r ≡ some t
      → data_role kit kind (some r) role m ≡ kind.read t role
  unfolding data_role
  data_role_lem m r t role e = rw (e, data_role)

  pub id_to_index-same :
      (m n : IdentifyingModel T) (i : ℤ)
      → n.index ≡ m.index
      → length n.items ≡ length m.items
      → id_to_index kit kind i n ≡ id_to_index kit kind i m
  unfolding id_to_index
  id_to_index-same m n i e l = ap₂ answer e l
    where
      answer : Map ℤ ℤ → ℕ → Option ℕ
      answer ix rows = elim (Map.lookup i ix) [ none ↦ none | some r ↦ kit.index rows r ]

  pub insert_data_lem :
      (m : IdentifyingModel T) (row : ℤ) (t : T)
      → insert_data kit kind row t m ≡ insert_data_list kit kind row (t ∷ []) m
  unfolding insert_data
  insert_data_lem m row t = refl
