-- ===== src/Core/IdentifyingModel/Rows.antt =====
-- The rows of the ids in a list: the reference that the index of a model is compared with.
use chat_up.Base.{
  ℕ, zero, suc, ◌+◌, ◌≡◌, refl, Bool, true, false, Option, none, some, List, [], ◌∷◌, ◌++◌, ℤ, pos,
  ◌+ℤ◌, pos-+ℤ, ◌==◌, int_eq, int_beq_iff, if◌then◌else◌, Bool-cases, inl, inr, ap, length,
  get_elem?, map, arith,
}

-- The row of the first item with an id, where the list begins at row `n`.
abbrev pub row_from : ℕ → ℤ → List ℤ → Option ℤ
row_from n j [] = none
row_from n j (i ∷ is) = if i == j then some (pos n) else row_from (suc n) j is

abbrev pub member : ℤ → List ℤ → Bool
member j [] = false
member j (i ∷ is) = if i == j then true else member j is

abbrev pub Distinct : List ℤ → Type 0
Distinct [] = Unit
Distinct (i ∷ is) = (member i is ≡ false) × Distinct is

-- No id is in both lists.
abbrev pub Apart : List ℤ → List ℤ → Type 0
Apart is js = (j : ℤ) → member j is ≡ true → member j js ≡ false

abbrev pub shift : ℕ → Option ℤ → Option ℤ
shift n none = none
shift n (some r) = some (r +ℤ pos n)

pub member-append :
    (j : ℤ) (is js : List ℤ) → member j (is ++ js) ≡ (if member j is then true else member j js)
member-append j [] js = refl
member-append j (i ∷ is) js = ground (arith, member-append j is js)

pub row_from-append :
    (n : ℕ) (j : ℤ) (is js : List ℤ)
    → row_from n j (is ++ js)
      ≡ (if member j is then row_from n j is else row_from (n + length is) j js)
row_from-append n j [] js = let e : n ≡ n + 0 = omega arith in ap (λ k. row_from k j js) e
row_from-append n j (i ∷ is) js =
    let e : suc n + length is ≡ n + suc (length is) = omega arith in
    ground (arith, row_from-append (suc n) j is js, ap (λ k. row_from k j js) e)

pub row_from-append_zero :
    (j : ℤ) (is js : List ℤ)
    → row_from 0 j (is ++ js) ≡ (if member j is then row_from 0 j is else row_from (length is) j js)
row_from-append_zero j is js =
    let e : 0 + length is ≡ length is = omega arith in
    ground (arith, row_from-append 0 j is js, ap (λ k. row_from k j js) e)

pub row_from-none : (n : ℕ) (j : ℤ) (is : List ℤ) → member j is ≡ false → row_from n j is ≡ none
row_from-none n j [] h = refl
row_from-none n j (i ∷ is) h = ground (arith, row_from-none (suc n) j is)

pub row_from-shift :
    (n d : ℕ) (j : ℤ) (is : List ℤ) → row_from (n + d) j is ≡ shift d (row_from n j is)
row_from-shift n d j [] = refl
row_from-shift n d j (i ∷ is) = ground (arith, row_from-shift (suc n) d j is, pos-+ℤ n d)

pub row_from-some :
    (n : ℕ) (j : ℤ) (is : List ℤ) → member j is ≡ true → (r : ℕ) × (row_from n j is ≡ some (pos r))
row_from-some n j [] h = cc
row_from-some n j (i ∷ is) h = elim (Bool-cases (i == j)) [
  | inl e ↦ (n, rw e)
  | inr f ↦ let (r, q) = row_from-some (suc n) j is (ground arith) in (r, rw f q)
]

pub Distinct-append :
    (is js : List ℤ) → Distinct is → Distinct js → Apart is js → Distinct (is ++ js)
Distinct-append [] js d e h = e
Distinct-append (i ∷ is) js d e h = (
  ground (arith, member-append i is js, h i, int_beq_iff i i),
  Distinct-append is js d.1 e (λ j k. h j (ground arith)),
)

pub Distinct-left : (is js : List ℤ) → Distinct (is ++ js) → Distinct is
Distinct-left [] js d = tt
Distinct-left (i ∷ is) js d = (ground (arith, member-append i is js), Distinct-left is js d.1)

pub Distinct-right : (is js : List ℤ) → Distinct (is ++ js) → Distinct js
Distinct-right [] js d = d
Distinct-right (i ∷ is) js d = Distinct-right is js d.1

pub Distinct-Apart : (is js : List ℤ) → Distinct (is ++ js) → Apart is js
Distinct-Apart [] js d j h = cc
Distinct-Apart (i ∷ is) js d j h =
    ground (arith, int_beq_iff i j, member-append i is js, Distinct-Apart is js d.1 j)

pub Distinct-insert :
    (is new js : List ℤ)
    → Distinct (is ++ js)
    → Distinct new
    → Apart new (is ++ js)
    → Distinct (is ++ (new ++ js))
Distinct-insert is new js d e h =
    Distinct-append is (new ++ js) (Distinct-left is js d)
      (Distinct-append new js e (Distinct-right is js d)
        (λ j k. ground (arith, h j k, member-append j is js)))
      (λ j k. ground (
        arith,
        h j,
        member-append j is js,
        member-append j new js,
        Distinct-Apart is js d j k,
        Bool-cases (member j new),
      ))

-- The parts of a list with a row taken out or replaced.
pub Distinct-cut : (is js : List ℤ) (i : ℤ) → Distinct (is ++ i ∷ js) → Distinct (is ++ js)
Distinct-cut is js i d =
    let right : Distinct (i ∷ js) = Distinct-right is (i ∷ js) d in
    Distinct-append is js (Distinct-left is (i ∷ js) d) right.1
      (λ j k. ground (arith, Distinct-Apart is (i ∷ js) d j k))

pub Distinct-replace :
    (is js : List ℤ) (i k : ℤ)
    → Distinct (is ++ i ∷ js)
    → member k (is ++ js) ≡ false
    → Distinct (is ++ k ∷ js)
Distinct-replace is js i k d h =
    Distinct-insert is (k ∷ []) js (Distinct-cut is js i d) (refl, tt)
      (λ j e. ground (arith, h, int_beq_iff k j))

pub row_from-get :
    (n q : ℕ) (j : ℤ) (is : List ℤ)
    → row_from n j is ≡ some (pos q)
    → (r : ℕ) × (q ≡ n + r) × (get_elem? is r ≡ some j)
row_from-get n q j [] h = cc
row_from-get n q j (i ∷ is) h = elim (Bool-cases (i == j)) [
  | inl e ↦ (0, ground arith, ap some ((int_beq_iff i j).0 e))
  | inr f ↦ let (r, p, g) = row_from-get (suc n) q j is (ground arith) in (suc r, omega arith, g)
]

member-get : (j : ℤ) (is : List ℤ) (r : ℕ) → get_elem? is r ≡ some j → member j is ≡ true
member-get j [] r h = cc
member-get j (i ∷ is) zero h = ground (arith, int_beq_iff i j)
member-get j (i ∷ is) (suc r) h = ground (arith, member-get j is r h)

pub row_from-index :
    (n r : ℕ) (j : ℤ) (is : List ℤ)
    → Distinct is
    → get_elem? is r ≡ some j
    → row_from n j is ≡ some (pos (n + r))
row_from-index n r j [] d h = cc
row_from-index n zero j (i ∷ is) d h = ground (arith, int_beq_iff i j)
row_from-index n (suc r) j (i ∷ is) d h =
    ground (arith, int_beq_iff i j, member-get j is r h, row_from-index (suc n) r j is d.1 h, d.0)

pub get_elem?-map :
    {A B : Type 0} (f : A → B) (xs : List A) (r : ℕ) (b : B)
    → get_elem? (map f xs) r ≡ some b
    → (a : A) × (get_elem? xs r ≡ some a) × (f a ≡ b)
get_elem?-map f [] r b h = cc
get_elem?-map f (x ∷ xs) zero b h = (x, refl, ground arith)
get_elem?-map f (x ∷ xs) (suc r) b h = get_elem?-map f xs r b h

pub map-get_elem? :
    {A B : Type 0} (f : A → B) (xs : List A) (r : ℕ) (a : A)
    → get_elem? xs r ≡ some a
    → get_elem? (map f xs) r ≡ some (f a)
map-get_elem? f [] r a h = cc
map-get_elem? f (x ∷ xs) zero a h = ground arith
map-get_elem? f (x ∷ xs) (suc r) a h = map-get_elem? f xs r a h
