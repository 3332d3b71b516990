-- ===== src/Core/IdentifyingModel/Indexed.antt =====
-- The index of a model agrees with its items (lib/core/models/identifyingmodel.h), and which
-- operations keep it so.
use chat_up.Base.{
  ℕ, suc, ◌≤◌, ◌≡◌, sym, ap, ap₂, subst, ◌∙◌, true, false, some, List, [], ◌∷◌, ◌++◌, map-append, ℤ,
  pos, ◌==◌, int_eq, int_beq_iff, ltb, Bool-cases, inl, inr, if◌then◌else◌, length, length-map,
  length-take, get_elem?, set, take, drop, take-append-drop, drop-eq_nil, set-split, split-at,
  lt-of_get_elem?, arith,
}
use native.Mathlib.Numerals.{add-one}
use chat_up.Base.Map
use chat_up.Base.Map.{Map}
use chat_up.Core.Toolkit.{Toolkit}
use chat_up.Core.IdentifyingModel.{
  IdentifyingModel, Signal, data_changed, ItemType, bump, assign_rows, id_of, ids, set_item,
  reindex, splice, cut,
}
use chat_up.Core.IdentifyingModel.Rows.{
  row_from, member, Distinct, Apart, Distinct-insert, Distinct-cut, Distinct-replace,
}
use chat_up.Core.IdentifyingModel.Index.{lookup-spliced, lookup-cut, lookup-renamed}

module _ {T V : Type 0} (kit : Toolkit V) (kind : ItemType T V) where
  -- The ids are distinct, and the index holds the row of each id and nothing else.
  pub record IsIndexed (m : IdentifyingModel T) : Type 0 where
    pub distinct : Distinct (ids kit kind m.items)
    pub rows : (j : ℤ) → Map.lookup j m.index ≡ row_from 0 j (ids kit kind m.items)

  ids-split :
      (r : ℕ) (ts : List T) → ids kit kind ts ≡ ids kit kind (take r ts) ++ ids kit kind (drop r ts)
  ids-split r ts = ap (ids kit kind) (sym (take-append-drop r ts)) ∙ map-append _ _ _

  length-ids-take : (r : ℕ) (ts : List T) → r ≤ length ts → length (ids kit kind (take r ts)) ≡ r
  length-ids-take r ts h = length-map _ (take r ts) ∙ length-take r ts h

  -- Where no row follows, there is nothing to shift.
  guarded_bump :
      (r n : ℕ) (ts : List T) (m : Map ℤ ℤ)
      → (if ltb r (length ts) then bump n (ids kit kind (drop r ts)) m else m)
        ≡ bump n (ids kit kind (drop r ts)) m
  unfolding bump
  guarded_bump r n ts m = elim (Bool-cases (ltb r (length ts))) [
    | inl t ↦ rw t
    | inr f ↦ rw f (rw (drop-eq_nil r ts (ground arith)))
  ]

  pub splice-IsIndexed :
      (m : IdentifyingModel T) (r : ℕ) (new : List T)
      → IsIndexed m
      → r ≤ length m.items
      → Distinct (ids kit kind new)
      → Apart (ids kit kind new) (ids kit kind m.items)
      → IsIndexed (splice kit kind r new m)
  unfolding splice
  splice-IsIndexed m r new v le d a =
      let before : List ℤ = ids kit kind (take r m.items) in
      let behind : List ℤ = ids kit kind (drop r m.items) in
      let fresh : List ℤ = ids kit kind new in
      let split : ids kit kind m.items ≡ before ++ behind = ids-split r m.items in
      let joined : ids kit kind (take r m.items ++ (new ++ drop r m.items))
          ≡ before ++ (fresh ++ behind) =
        map-append _ _ _ ∙ ap (◌++◌ before) (map-append _ _ _) in
      let distinct : Distinct (before ++ (fresh ++ behind)) =
        Distinct-insert before fresh behind (subst Distinct split v.distinct) d
          (subst (Apart fresh) split a) in
      record {
        distinct = subst Distinct (sym joined) distinct;
        rows = λ j.
            ap (λ q. Map.lookup j (assign_rows r fresh q))
              (guarded_bump r (length new) m.items m.index)
            ∙ ap₂ (λ p q. Map.lookup j (assign_rows p fresh (bump q behind m.index)))
                (sym (length-ids-take r m.items le)) (sym (length-map (id_of kit kind) new))
            ∙ lookup-spliced before fresh behind m.index j distinct
                (v.rows j ∙ ap (row_from 0 j) split)
            ∙ ap (row_from 0 j) (sym joined);
      }

  pub cut-IsIndexed :
      (m : IdentifyingModel T) (r : ℕ) (t : T)
      → IsIndexed m
      → get_elem? m.items r ≡ some t
      → IsIndexed (cut kit kind r 1 t m)
  unfolding cut
  cut-IsIndexed m r t v e =
      let before : List ℤ = ids kit kind (take r m.items) in
      let behind : List ℤ = ids kit kind (drop (suc r) m.items) in
      let split : ids kit kind m.items ≡ before ++ id_of kit kind t ∷ behind =
        ap (ids kit kind) (split-at m.items r t e) ∙ map-append _ _ _ in
      let distinct : Distinct (before ++ id_of kit kind t ∷ behind) =
        subst Distinct split v.distinct in
      let joined : ids kit kind (take r m.items ++ drop (suc r) m.items) ≡ before ++ behind =
        map-append _ _ _ in
      rw (add-one r) (record {
        distinct = subst Distinct (sym joined) (Distinct-cut before behind _ distinct);
        rows = λ j.
            lookup-cut before behind (id_of kit kind t) m.index j distinct
              (v.rows j ∙ ap (row_from 0 j) split)
            ∙ ap (row_from 0 j) (sym joined);
      })

  pub set_item_lem :
      (m : IdentifyingModel T) (r : ℕ) (t old : T)
      → get_elem? m.items r ≡ some old
      → set_item kit kind (some r) t m ≡ (
        record {
          items = set m.items r t;
          index = reindex kit kind r (id_of kit kind old) (id_of kit kind t) m.index;
          signals = m.signals ++ data_changed r ∷ [];
        },
        true,
      )
  unfolding set_item
  set_item_lem m r t old e = rw (e, set_item)

  pub reindex-IsIndexed :
      (m : IdentifyingModel T) (r : ℕ) (t old : T) (s : List Signal)
      → IsIndexed m
      → get_elem? m.items r ≡ some old
      → member (id_of kit kind t) (ids kit kind (take r m.items ++ drop (suc r) m.items)) ≡ false
      → IsIndexed (record {
        items = set m.items r t;
        index = reindex kit kind r (id_of kit kind old) (id_of kit kind t) m.index;
        signals = s;
      })
  unfolding reindex
  reindex-IsIndexed m r t old s v e new =
      let before : List ℤ = ids kit kind (take r m.items) in
      let behind : List ℤ = ids kit kind (drop (suc r) m.items) in
      let split : ids kit kind m.items ≡ before ++ id_of kit kind old ∷ behind =
        ap (ids kit kind) (split-at m.items r old e) ∙ map-append _ _ _ in
      let joined : ids kit kind (set m.items r t) ≡ before ++ id_of kit kind t ∷ behind =
        ap (ids kit kind) (set-split m.items r old t e) ∙ map-append _ _ _ in
      let was : Distinct (before ++ id_of kit kind old ∷ behind) =
        subst Distinct split v.distinct in
      let is : Distinct (before ++ id_of kit kind t ∷ behind) =
        Distinct-replace before behind _ _ was (
          ap (member (id_of kit kind t))
            (sym (map-append {A = T} (id_of kit kind) (take r m.items) _))
          ∙ new) in
      elim (Bool-cases (id_of kit kind old == id_of kit kind t)) [
        | inl same ↦ rw same (record {
          distinct = subst Distinct (sym joined) is;
          rows = λ j.
              v.rows j
              ∙ ap (row_from 0 j)
                  (split ∙ ap (λ i. before ++ i ∷ behind) ((int_beq_iff _ _).0 same) ∙ sym joined);
        })
        | inr other ↦ rw other (record {
          distinct = subst Distinct (sym joined) is;
          rows = λ j.
              ap
                (λ k.
                  Map.lookup j (
                    Map.erase (id_of kit kind old) (Map.insert (id_of kit kind t) (pos k) m.index)))
                (sym (length-ids-take r m.items (omega (arith, lt-of_get_elem? m.items r old e))))
              ∙ lookup-renamed before behind _ _ m.index j was is other
                  (v.rows j ∙ ap (row_from 0 j) split)
              ∙ ap (row_from 0 j) (sym joined);
        })
      ]
