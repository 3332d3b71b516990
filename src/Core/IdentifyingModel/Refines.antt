-- ===== src/Core/IdentifyingModel/Refines.antt =====
-- An IdentifyingModel (lib/core/models/identifyingmodel.h) as an implementation of a plain list: the
-- commands of its clients, on the model and on the list.
use chat_up.Base.{
  ℕ, suc, ◌+◌, ◌≤◌, ◌<◌, ◌≡◌, refl, sym, ap, ◌∙◌, subst, false, Bool-cases, inl, inr, Option, none,
  some, List, [], ◌∷◌, ◌++◌, ℤ, pos, negsuc, int_eq, length, set, take, drop, lt-of_get_elem?,
  arith,
}
use chat_up.Core.Toolkit.{Toolkit}
use chat_up.Core.IdentifyingModel.{
  IdentifyingModel, ItemType, empty, id_of, ids, id_to_index, set_item, insert_data_list,
  remove_rows,
}
use chat_up.Core.IdentifyingModel.Rows.{
  row_from, row_from-some, row_from-get, row_from-none, member, Distinct, get_elem?-map,
}
use chat_up.Core.IdentifyingModel.Indexed.{IsIndexed}
use chat_up.Core.IdentifyingModel.Keeps.{
  AllNew, empty-IsIndexed, row_answer, not_located, insert_data_list-IsIndexed,
  remove_rows-IsIndexed, set_item-IsIndexed,
}

pub data Command (T : Type 0) : Type 0 where
  insert : ℕ → List T → Command T
  remove : ℕ → Command T
  replace : ℕ → T → Command T

-- On a plain list.
abbrev pub run_list : {T : Type 0} → List (Command T) → List T → List T
run_list [] xs = xs
run_list (insert r new ∷ cs) xs = run_list cs (take r xs ++ (new ++ drop r xs))
run_list (remove r ∷ cs) xs = run_list cs (take r xs ++ drop (r + 1) xs)
run_list (replace r t ∷ cs) xs = run_list cs (set xs r t)

abbrev pub row : Option ℤ → Option ℕ
row none = none
row (some (pos n)) = some n
row (some (negsuc n)) = none

module _ {T V : Type 0} (kit : Toolkit V) (kind : ItemType T V) where
  -- On a model.
  abbrev pub run : List (Command T) → IdentifyingModel T → IdentifyingModel T
  run [] m = m
  run (insert r new ∷ cs) m = run cs (insert_data_list kit kind (pos r) new m).0
  run (remove r ∷ cs) m = run cs (remove_rows kit kind (pos r) (pos 1) m).0
  run (replace r t ∷ cs) m = run cs (set_item kit kind (some r) t m).0

  -- The rows of the commands are in range, and the ids that come in are new.
  abbrev pub Allowed : List (Command T) → List T → Type 0
  Allowed [] xs = Unit
  Allowed (insert r new ∷ cs) xs =
      (r ≤ length xs)
      × (0 < length new)
      × Distinct (ids kit kind new)
      × AllNew (ids kit kind new) (ids kit kind xs)
      × Allowed cs (take r xs ++ (new ++ drop r xs))
  Allowed (remove r ∷ cs) xs = (r < length xs) × Allowed cs (take r xs ++ drop (r + 1) xs)
  Allowed (replace r t ∷ cs) xs =
      (r < length xs)
      × (member (id_of kit kind t) (ids kit kind (take r xs ++ drop (suc r) xs)) ≡ false)
      × Allowed cs (set xs r t)

  -- The row that a search of the items finds.
  abbrev pub search : ℤ → List T → Option ℕ
  search i xs = row (row_from 0 i (ids kit kind xs))

  id_to_index-search :
      (m : IdentifyingModel T) (i : ℤ)
      → IsIndexed kit kind m
      → id_to_index kit kind i m ≡ search i m.items
  id_to_index-search m i v = elim (Bool-cases (member i (ids kit kind m.items))) [
    | inl here ↦
        let (q, e) = row_from-some 0 i (ids kit kind m.items) here in
        let (r, p, g) = row_from-get 0 q i (ids kit kind m.items) e in
        let (t, at_row, _) = get_elem?-map (id_of kit kind) m.items r i g in
        let lt : q < length m.items = omega (arith, lt-of_get_elem? m.items r t at_row, p) in
        row_answer kit kind m i q (v.rows i ∙ e) lt ∙ sym (ap row e)
    | inr nowhere ↦
        not_located kit kind m i v nowhere
        ∙ sym (ap row (row_from-none 0 i (ids kit kind m.items) nowhere))
  ]

  run-items :
      (cs : List (Command T)) (m : IdentifyingModel T)
      → IsIndexed kit kind m
      → Allowed cs m.items
      → ((run cs m).items ≡ run_list cs m.items) × IsIndexed kit kind (run cs m)
  run-items [] m v a = (refl, v)
  run-items (insert r new ∷ cs) m v (le, ne, d, n, a) =
      let (_, items, w) = insert_data_list-IsIndexed kit kind m r new v le ne d n in
      let (done, x) = run-items cs _ w (subst (Allowed cs) (sym items) a) in
      (done ∙ ap (run_list cs) items, x)
  run-items (remove r ∷ cs) m v (lt, a) =
      let (_, items, w) = remove_rows-IsIndexed kit kind m r v lt in
      let (done, x) = run-items cs _ w (subst (Allowed cs) (sym items) a) in
      (done ∙ ap (run_list cs) items, x)
  run-items (replace r t ∷ cs) m v (lt, n, a) =
      let (_, items, w) = set_item-IsIndexed kit kind m r t v lt n in
      let (done, x) = run-items cs _ w (subst (Allowed cs) (sym items) a) in
      (done ∙ ap (run_list cs) items, x)

  -- Commands with rows in range and new ids, run on an empty model and on an empty list, leave the
  -- same items, and `idToIndex` then answers each id as a search of the list does.
  pub run-refines :
      (cs : List (Command T)) (i : ℤ)
      → Allowed cs []
      → ((run cs empty).items ≡ run_list cs [])
        × (id_to_index kit kind i (run cs empty) ≡ search i (run_list cs []))
  unfolding empty
  run-refines cs i a =
      let (items, v) = run-items cs empty (empty-IsIndexed kit kind) a in
      (items, id_to_index-search (run cs empty) i v ∙ ap (search i) items)
