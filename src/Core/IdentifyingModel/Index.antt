-- ===== src/Core/IdentifyingModel/Index.antt =====
-- What the loops over `_index` make of it (lib/core/models/identifyingmodel.h).
use chat_up.Base.{
  ℕ, suc, ◌≡◌, refl, true, false, some, List, [], ◌∷◌, ◌++◌, ℤ, pos, ◌+ℤ◌, ◌-ℤ◌, pos-suc--ℤ, ◌==◌,
  int_eq, int_beq_iff, if◌then◌else◌, ap, sym, ◌∙◌, length, arith,
}
use chat_up.Base.Map
use chat_up.Base.Map.{Map, lookup-insert, lookup-erase, map_laws}
use chat_up.Core.IdentifyingModel.{row_at, bump, lower, assign_rows}
use chat_up.Core.IdentifyingModel.Rows.{
  row_from, member, Distinct, member-append, row_from-append, row_from-append_zero, row_from-none,
  row_from-shift, row_from-some, Distinct-left, Distinct-right, Distinct-Apart,
}

pub lookup-bump :
    (n : ℕ) (j : ℤ) (is : List ℤ) (m : Map ℤ ℤ)
    → Distinct is
    → Map.lookup j (bump n is m)
      ≡ (if member j is then some (row_at j m +ℤ pos n) else Map.lookup j m)
unfolding bump
lookup-bump n j [] m d = refl
lookup-bump n j (i ∷ is) m d = ground (
  arith,
  lookup-bump n j is (Map.insert i (row_at i m +ℤ pos n) m) d.1,
  lookup-insert i j (row_at i m +ℤ pos n) m,
  int_beq_iff i j,
)

pub lookup-assign_rows :
    (r : ℕ) (j : ℤ) (is : List ℤ) (m : Map ℤ ℤ)
    → Distinct is
    → Map.lookup j (assign_rows r is m) ≡ (if member j is then row_from r j is else Map.lookup j m)
unfolding assign_rows
lookup-assign_rows r j [] m d = refl
lookup-assign_rows r j (i ∷ is) m d = ground (
  arith,
  lookup-assign_rows (suc r) j is (Map.insert i (pos r) m) d.1,
  lookup-insert i j (pos r) m,
  int_beq_iff i j,
)

pub lookup-lower :
    (n : ℕ) (j : ℤ) (is : List ℤ) (m : Map ℤ ℤ)
    → Distinct is
    → Map.lookup j (lower n is m)
      ≡ (if member j is then some (row_at j m -ℤ pos n) else Map.lookup j m)
unfolding lower
lookup-lower n j [] m d = refl
lookup-lower n j (i ∷ is) m d = ground (
  arith,
  lookup-lower n j is (Map.insert i (row_at i m -ℤ pos n) m) d.1,
  lookup-insert i j (row_at i m -ℤ pos n) m,
  int_beq_iff i j,
)

row_at-eq : (j r : ℤ) (m : Map ℤ ℤ) → Map.lookup j m ≡ some r → row_at j m ≡ r
unfolding row_at
row_at-eq j r m h = rw (h, row_at)

spliced_row :
    (r : ℕ) (j : ℤ) (js : List ℤ) (m : Map ℤ ℤ)
    → Map.lookup j m ≡ row_from r j js
    → member j js ≡ true
    → row_from r j js ≡ some (row_at j m)
spliced_row r j js m h k =
    let (q, e) = row_from-some r j js k in e ∙ ap some (sym (row_at-eq j (pos q) m (h ∙ e)))

-- The index after rows with new ids come between `is` and `js`.
pub lookup-spliced :
    (is new js : List ℤ) (m : Map ℤ ℤ) (j : ℤ)
    → Distinct (is ++ (new ++ js))
    → Map.lookup j m ≡ row_from 0 j (is ++ js)
    → Map.lookup j (assign_rows (length is) new (bump (length new) js m))
      ≡ row_from 0 j (is ++ (new ++ js))
lookup-spliced is new js m j d h =
    let right : Distinct (new ++ js) = Distinct-right is (new ++ js) d in
    ground (
      arith,
      lookup-assign_rows (length is) j new (bump (length new) js m) (Distinct-left new js right),
      lookup-bump (length new) j js m (Distinct-right new js right),
      Distinct-Apart is (new ++ js) d j,
      member-append j new js,
      row_from-append_zero j is (new ++ js),
      row_from-append (length is) j new js,
      row_from-append_zero j is js,
      row_from-shift (length is) (length new) j js,
      row_from-none (length is) j js,
      spliced_row (length is) j js m,
    )

row_from-suc :
    (r q : ℕ) (j : ℤ) (js : List ℤ)
    → row_from r j js ≡ some (pos q)
    → row_from (suc r) j js ≡ some (pos (suc q))
row_from-suc r q j [] h = cc
row_from-suc r q j (i ∷ js) h = ground (arith, row_from-suc (suc r) q j js)

lowered_row :
    (r : ℕ) (j : ℤ) (js : List ℤ) (m : Map ℤ ℤ)
    → Map.lookup j m ≡ row_from (suc r) j js
    → member j js ≡ true
    → row_from r j js ≡ some (row_at j m -ℤ pos 1)
lowered_row r j js m h k =
    let (q, e) = row_from-some r j js k in
    let up : row_from (suc r) j js ≡ some (pos (suc q)) = row_from-suc r q j js e in
    e ∙ ap some (sym (rw (row_at-eq j (pos (suc q)) m (h ∙ up)) (pos-suc--ℤ q)))

-- The index after one row is gone.
pub lookup-cut :
    (is js : List ℤ) (i : ℤ) (m : Map ℤ ℤ) (j : ℤ)
    → Distinct (is ++ i ∷ js)
    → Map.lookup j m ≡ row_from 0 j (is ++ i ∷ js)
    → Map.lookup j (lower 1 js (Map.erase i m)) ≡ row_from 0 j (is ++ js)
lookup-cut is js i m j d h =
    let right : Distinct (i ∷ js) = Distinct-right is (i ∷ js) d in
    ground (
      arith,
      lookup-lower 1 j js (Map.erase i m) right.1,
      lookup-erase i j m,
      Distinct-Apart is (i ∷ js) d j,
      row_from-append_zero j is (i ∷ js),
      row_from-append_zero j is js,
      row_from-none (length is) j js,
      row_from-none (suc (length is)) j js,
      lowered_row (length is) j js (Map.erase i m),
      int_beq_iff i j,
      right.0,
    )

-- The index after the id of one row has changed.
pub lookup-renamed :
    (is js : List ℤ) (old new : ℤ) (m : Map ℤ ℤ) (j : ℤ)
    → Distinct (is ++ old ∷ js)
    → Distinct (is ++ new ∷ js)
    → (old == new) ≡ false
    → Map.lookup j m ≡ row_from 0 j (is ++ old ∷ js)
    → Map.lookup j (Map.erase old (Map.insert new (pos (length is)) m))
      ≡ row_from 0 j (is ++ new ∷ js)
lookup-renamed is js old new m j d e ne h = ground (
  arith,
  lookup-erase old j (Map.insert new (pos (length is)) m),
  lookup-insert new j (pos (length is)) m,
  Distinct-Apart is (old ∷ js) d j,
  Distinct-Apart is (new ∷ js) e j,
  (Distinct-right is (old ∷ js) d).0,
  row_from-append_zero j is (old ∷ js),
  row_from-append_zero j is (new ∷ js),
  row_from-none (suc (length is)) j js,
  row_from-none 0 j is,
  int_beq_iff old j,
  int_beq_iff new j,
  int_beq_iff old new,
)
