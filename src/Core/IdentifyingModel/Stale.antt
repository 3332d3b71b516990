-- ===== src/Core/IdentifyingModel/Stale.antt =====
-- Where the index of an IdentifyingModel (lib/core/models/identifyingmodel.h) goes wrong.
use chat_up.Base.{
  get_elem?-set, length-set, set, [], ℕ, zero, suc, ◌+◌, ◌-◌, ◌≡◌, ◌≢◌, refl, ap, ◌∙◌, true, false,
  some, List, ◌∷◌, ◌++◌, ℤ, pos, int_eq, int_beq_iff, ltb, length, get_elem?, take, drop,
  get_elem?-insert, length-insert, arith,
}
use chat_up.Base.Map
use chat_up.Base.Map.{Map, lookup-insert, lookup-erase}
use chat_up.Core.Toolkit.{Toolkit}
use chat_up.Core.IdentifyingModel.{
  IdentifyingModel, ItemType, id_of, ids, assign_rows, id_to_index, splice_rows, insert_rows,
  set_item, reindex,
}
use chat_up.Core.IdentifyingModel.Rows.{row_from-index, map-get_elem?}
use chat_up.Core.IdentifyingModel.Indexed.{IsIndexed, set_item_lem}
use chat_up.Core.IdentifyingModel.Keeps.{row_answer}

module _ {T V : Type 0} (kit : Toolkit V) (kind : ItemType T V) where
  -- The loop that gives the new rows their entries does not reach other ids.
  assign_apart :
      (r : ℕ) (j : ℤ) (t : T) (ts us : List T) (m : Map ℤ ℤ)
      → id_of kit kind t ≢ j
      → Map.lookup j (assign_rows r (ids kit kind (take (1 - r) (drop r (take r ts ++ t ∷ us)))) m)
        ≡ Map.lookup j m
  unfolding assign_rows
  assign_apart zero j t ts us m ne =
      ground (arith, lookup-insert (id_of kit kind t) j (pos 0) m, int_beq_iff (id_of kit kind t) j)
  assign_apart (suc r) j t ts us m ne = let none_left : 1 - suc r ≡ 0 = omega arith in rw none_left

  -- One row put in before the last: the id of the last item keeps its old row.
  stale_row :
      (m : IdentifyingModel T) (r : ℕ) (u : T)
      → IsIndexed kit kind m
      → length m.items ≡ suc r
      → get_elem? m.items r ≡ some u
      → id_of kit kind kind.create ≢ id_of kit kind u
      → Map.lookup (id_of kit kind u) (splice_rows kit kind r 1 m).index ≡ some (pos r)
  unfolding splice_rows
  stale_row m r u v len e ne =
      let same : Map.lookup (id_of kit kind u) m.index ≡ some (pos r) =
        v.rows (id_of kit kind u)
        ∙ row_from-index 0 r (id_of kit kind u) (ids kit kind m.items) v.distinct
            (map-get_elem? (id_of kit kind) m.items r u e)
        ∙ ap (λ k. some (pos k)) (omega arith) in
      let unshifted : ltb (r + 1) (length m.items) ≡ false = ground arith in
      rw unshifted
        (assign_apart r (id_of kit kind u) kind.create m.items (drop r m.items) m.index ne ∙ same)

  -- `insertRows` of one row before the last breaks the index, on every model whose index is right
  -- and whose last item has not the id of a new row: the item moves down by one, the new row stands
  -- where it was, and `idToIndex` still answers the old row for it.
  pub insert_rows-stale :
      (m : IdentifyingModel T) (r : ℕ) (u : T)
      → IsIndexed kit kind m
      → length m.items ≡ suc r
      → get_elem? m.items r ≡ some u
      → id_of kit kind kind.create ≢ id_of kit kind u
      → let (n, done) = insert_rows kit kind (pos r) (pos 1) m in
        (done ≡ true)
        × (get_elem? n.items r ≡ some kind.create)
        × (get_elem? n.items (suc r) ≡ some u)
        × (id_to_index kit kind (id_of kit kind u) n ≡ some r)
  unfolding insert_rows splice_rows
  insert_rows-stale m r u v len e ne =
      let range : ltb (length m.items) r ≡ false = ground arith in
      let (first, second) = get_elem?-insert m.items r kind.create (omega arith) in
      let count = length-insert m.items r kind.create in
      rw range (
        refl,
        first,
        second ∙ e,
        row_answer kit kind _ (id_of kit kind u) r (stale_row m r u v len e ne)
            (omega (arith, count)),
      )

  pub inserted :
      (m : IdentifyingModel T) (r : ℕ) (u : T)
      → IsIndexed kit kind m
      → length m.items ≡ suc r
      → get_elem? m.items r ≡ some u
      → id_of kit kind kind.create ≢ id_of kit kind u
      → let n = (insert_rows kit kind (pos r) (pos 1) m).0 in
        (length n.items ≡ suc (suc r)) × (Map.lookup (id_of kit kind u) n.index ≡ some (pos r))
  unfolding insert_rows splice_rows
  inserted m r u v len e ne =
      let range : ltb (length m.items) r ≡ false = ground arith in
      rw range (omega (arith, length-insert m.items r kind.create), stale_row m r u v len e ne)

  reindex-apart :
      (r : ℕ) (old new j : ℤ) (m : Map ℤ ℤ)
      → old ≢ j
      → new ≢ j
      → Map.lookup j (reindex kit kind r old new m) ≡ Map.lookup j m
  unfolding reindex
  reindex-apart r old new j m o n = ground (
    arith,
    lookup-insert new j (pos r) m,
    lookup-erase old j (Map.insert new (pos r) m),
    int_beq_iff old j,
    int_beq_iff new j,
  )

  get_set-apart :
      {A : Type 0} (xs : List A) (r : ℕ) (a : A)
      → get_elem? (set xs r a) (suc r) ≡ get_elem? xs (suc r)
  get_set-apart [] r a = refl
  get_set-apart (x ∷ xs) zero a = refl
  get_set-apart (x ∷ xs) (suc r) a = get_set-apart xs r a

  -- The row put in before the last is then given an item, as the controllers do: the new item is in
  -- the row, the item that was there is in the next one, and its id still answers the row.
  pub set_item-stale :
      (m : IdentifyingModel T) (r : ℕ) (u t : T)
      → IsIndexed kit kind m
      → length m.items ≡ suc r
      → get_elem? m.items r ≡ some u
      → id_of kit kind kind.create ≢ id_of kit kind u
      → id_of kit kind t ≢ id_of kit kind u
      → let n = (insert_rows kit kind (pos r) (pos 1) m).0 in
        let k = (set_item kit kind (some r) t n).0 in
        (get_elem? k.items r ≡ some t)
        × (get_elem? k.items (suc r) ≡ some u)
        × (id_to_index kit kind (id_of kit kind u) k ≡ some r)
  set_item-stale m r u t v len e ne other =
      let (done, first, second, answer) = insert_rows-stale m r u v len e ne in
      let (count, row) = inserted m r u v len e ne in
      let n : IdentifyingModel T = (insert_rows kit kind (pos r) (pos 1) m).0 in
      rw (ap (λ q. q.0) (set_item_lem kit kind n r t kind.create first)) (
        get_elem?-set n.items r kind.create t first,
        get_set-apart n.items r t ∙ second,
        row_answer kit kind _ (id_of kit kind u) r
            (reindex-apart r _ _ (id_of kit kind u) n.index ne other ∙ row)
            (omega (arith, count, length-set n.items r t)),
      )
