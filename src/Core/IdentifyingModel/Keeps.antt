-- ===== src/Core/IdentifyingModel/Keeps.antt =====
-- The operations of an IdentifyingModel (lib/core/models/identifyingmodel.h) that keep the index in
-- step with the items, and what `idToIndex` then answers.
use chat_up.Base.{
  Bool, ℕ, suc, ◌+◌, ◌≤◌, ◌<◌, ◌≡◌, ◌⊎◌, ◌↔◌, refl, sym, ap, subst, ◌∙◌, Bool-cases, inl, inr,
  int_eq, true, false, Option, none, some, List, [], ◌∷◌, int_beq_iff, ◌++◌, ℤ, pos, negsuc,
  nat_beq, ltb, length, get_elem?, get_elem?-lt, set, take, drop, lt-of_get_elem?, arith,
}
use chat_up.Base.Map
use chat_up.Core.Toolkit.{Toolkit}
use chat_up.Core.IdentifyingModel.{
  IdentifyingModel, ItemType, empty, id_of, ids, id_to_index, set_item, splice, insert_data_list,
  insert_range, insert_rows, cut, remove_rows, insert_rows,
}
use chat_up.Core.IdentifyingModel.Rows.{
  row_from-some, row_from-none, member, Distinct, Apart, row_from-get, row_from-index,
  get_elem?-map, map-get_elem?,
}
use chat_up.Core.IdentifyingModel.Indexed.{
  IsIndexed, splice-IsIndexed, cut-IsIndexed, set_item_lem, reindex-IsIndexed,
}

-- No id of the first list is in the second.
abbrev pub AllNew : List ℤ → List ℤ → Type 0
AllNew [] js = Unit
AllNew (i ∷ is) js = (member i js ≡ false) × AllNew is js

AllNew-Apart : (is js : List ℤ) → AllNew is js → Apart is js
AllNew-Apart [] js a j h = cc
AllNew-Apart (i ∷ is) js a j h = ground (arith, int_beq_iff i j, a.0, AllNew-Apart is js a.1 j)

some_eq : {m n : ℕ} → some m ≡ some n → m ≡ n
some_eq h = cc

none-ne-some : {n : ℕ} → ¬ (none ≡ some n)
none-ne-some h = cc

module _ {T V : Type 0} (kit : Toolkit V) (kind : ItemType T V) where
  pub empty-IsIndexed : IsIndexed kit kind empty
  unfolding empty
  empty-IsIndexed = record { distinct = tt; rows = λ j. Map.lookup-empty j }

  pub row_answer :
      (m : IdentifyingModel T) (i : ℤ) (q : ℕ)
      → Map.lookup i m.index ≡ some (pos q)
      → q < length m.items
      → id_to_index kit kind i m ≡ some q
  unfolding id_to_index
  row_answer m i q e lt =
      let inside : ltb q (length m.items) ≡ true = ground arith in
      rw (e, id_to_index) (kit.index-pos (length m.items) q ∙ rw inside refl)

  pub located :
      (m : IdentifyingModel T) (i : ℤ)
      → IsIndexed kit kind m
      → member i (ids kit kind m.items) ≡ true
      → (q : ℕ) × (t : T) × (get_elem? m.items q ≡ some t)
        × (id_of kit kind t ≡ i)
        × (id_to_index kit kind i m ≡ some q)
  located m i v h =
      let (q, e) = row_from-some 0 i (ids kit kind m.items) h in
      let (r, p, g) = row_from-get 0 q i (ids kit kind m.items) e in
      let (t, at_row, same) = get_elem?-map (id_of kit kind) m.items r i g in
      let row : Map.lookup i m.index ≡ some (pos r) =
        v.rows i ∙ e ∙ ap (λ k. some (pos k)) (omega arith) in
      (r, t, at_row, same, row_answer m i r row (lt-of_get_elem? m.items r t at_row))

  pub not_located :
      (m : IdentifyingModel T) (i : ℤ)
      → IsIndexed kit kind m
      → member i (ids kit kind m.items) ≡ false
      → id_to_index kit kind i m ≡ none
  unfolding id_to_index
  not_located m i v h = rw (v.rows i ∙ row_from-none 0 i (ids kit kind m.items) h, id_to_index)

  -- On a model whose index agrees with its items, `idToIndex` answers a row exactly when the item
  -- in that row has the id.
  pub id_to_index_iff :
      (m : IdentifyingModel T) (i : ℤ) (r : ℕ)
      → IsIndexed kit kind m
      → (id_to_index kit kind i m ≡ some r)
        ↔ ((t : T) × (get_elem? m.items r ≡ some t) × (id_of kit kind t ≡ i))
  id_to_index_iff m i r v = (
    λ h. elim (Bool-cases (member i (ids kit kind m.items))) [
      | inl here ↦
          let (q, t, at_row, same, answer) = located m i v here in
          let row : q ≡ r = some_eq (sym answer ∙ h) in
          (t, subst (λ k. get_elem? m.items k ≡ some t) row at_row, same)
      | inr nowhere ↦ absurd (none-ne-some (sym (not_located m i v nowhere) ∙ h))
    ],
    λ (t, at_row, same).
        row_answer m i r
          (v.rows i
            ∙ row_from-index 0 r i (ids kit kind m.items) v.distinct
                (map-get_elem? (id_of kit kind) m.items r t at_row ∙ ap some same)
            ∙ ap (λ k. some (pos k)) (omega arith))
          (lt-of_get_elem? m.items r t at_row),
  )

  -- A list of items with new and distinct ids, put in at a row in range, stands there between the
  -- rows before and the rows from there on, and the index agrees with the items again.
  pub insert_data_list-IsIndexed :
      (m : IdentifyingModel T) (r : ℕ) (new : List T)
      → IsIndexed kit kind m
      → r ≤ length m.items
      → 0 < length new
      → Distinct (ids kit kind new)
      → AllNew (ids kit kind new) (ids kit kind m.items)
      → let (n, done) = insert_data_list kit kind (pos r) new m in
        (done ≡ true) × (n.items ≡ take r m.items ++ (new ++ drop r m.items)) × IsIndexed kit kind n
  unfolding insert_data_list splice
  insert_data_list-IsIndexed m r new v le ne d a =
      let range : ltb (length m.items) r ≡ false = ground arith in
      let some_new : nat_beq (length new) 0 ≡ false = ground arith in
      rw (range, some_new)
        (refl, refl, splice-IsIndexed kit kind m r new v le d (AllNew-Apart _ _ a))

  -- The removal of one row in range takes out that item and no other, and the index agrees with the
  -- items again.
  pub remove_rows-IsIndexed :
      (m : IdentifyingModel T) (r : ℕ)
      → IsIndexed kit kind m
      → r < length m.items
      → let (n, done) = remove_rows kit kind (pos r) (pos 1) m in
        (done ≡ true) × (n.items ≡ take r m.items ++ drop (r + 1) m.items) × IsIndexed kit kind n
  unfolding remove_rows cut
  remove_rows-IsIndexed m r v lt =
      let (t, e) = get_elem?-lt m.items r lt in
      let range : ltb (length m.items) (r + 1) ≡ false = ground arith in
      rw (range, e) (refl, refl, cut-IsIndexed kit kind m r t v e)

  -- An item may be replaced by one whose id no other row has: the row has the new item, all others
  -- are as they were, and the index agrees with the items again, whether the id changed or not.
  pub set_item-IsIndexed :
      (m : IdentifyingModel T) (r : ℕ) (t : T)
      → IsIndexed kit kind m
      → r < length m.items
      → member (id_of kit kind t) (ids kit kind (take r m.items ++ drop (suc r) m.items)) ≡ false
      → let (n, done) = set_item kit kind (some r) t m in
        (done ≡ true) × (n.items ≡ set m.items r t) × IsIndexed kit kind n
  set_item-IsIndexed m r t v lt new =
      let (old, e) = get_elem?-lt m.items r lt in
      rw (set_item_lem kit kind m r t old e)
        (refl, refl, reindex-IsIndexed kit kind m r t old _ v e new)

  -- An operation returned true, or it returned false and changed nothing.
  abbrev pub Refuses : IdentifyingModel T → IdentifyingModel T × Bool → Type 0
  Refuses m out = (out ≡ (m, false)) ⊎ (out.1 ≡ true)

  insert_data_list-Refuses :
      (m : IdentifyingModel T) (row : ℤ) (new : List T)
      → Refuses m (insert_data_list kit kind row new m)
  unfolding insert_data_list
  insert_data_list-Refuses m (pos r) new = ground arith
  insert_data_list-Refuses m (negsuc r) new = inl refl

  insert_rows-Refuses :
      (m : IdentifyingModel T) (row count : ℤ) → Refuses m (insert_rows kit kind row count m)
  unfolding insert_rows
  insert_rows-Refuses m (pos r) (pos (suc n)) = ground arith
  insert_rows-Refuses m _ _ = inl refl

  remove_rows-Refuses :
      (m : IdentifyingModel T) (row count : ℤ) → Refuses m (remove_rows kit kind row count m)
  unfolding remove_rows
  remove_rows-Refuses m (pos r) (pos (suc n)) = ground arith
  remove_rows-Refuses m _ _ = inl refl

  insert_range-Refuses :
      (m : IdentifyingModel T) (leftover : List T → List T → List T) (row : ℤ) (new : List T)
      → Refuses m (insert_range kit kind leftover row new m)
  unfolding insert_range
  insert_range-Refuses m leftover (pos r) new = ground arith
  insert_range-Refuses m leftover (negsuc r) new = inl refl

  set_item-Refuses :
      (m : IdentifyingModel T) (o : Option ℕ) (t : T) → Refuses m (set_item kit kind o t m)
  unfolding set_item
  set_item-Refuses m none t = inl refl
  set_item-Refuses m (some r) t = ground arith

  -- An insertion of a list or of a range, an insertion or a removal of rows, and a replacement of an
  -- item each return true, or return false and leave the model as it was, at any row, negative ones
  -- included, and with any count.
  pub refused_unchanged :
      (m : IdentifyingModel T) (leftover : List T → List T → List T) (row count : ℤ) (new : List T)
      (o : Option ℕ) (t : T)
      → Refuses m (insert_data_list kit kind row new m)
        × Refuses m (insert_range kit kind leftover row new m)
        × Refuses m (insert_rows kit kind row count m)
        × Refuses m (remove_rows kit kind row count m)
        × Refuses m (set_item kit kind o t m)
  refused_unchanged m leftover row count new o t = (
    insert_data_list-Refuses m row new,
    insert_range-Refuses m leftover row new,
    insert_rows-Refuses m row count,
    remove_rows-Refuses m row count,
    set_item-Refuses m o t,
  )
