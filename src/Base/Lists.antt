-- ===== src/Base/Lists.antt =====
-- Lists measured and indexed by native numbers, under the library's names.
use Prim.Native.Nat.{ℕ, zero, suc, ◌+◌, ◌-◌, ◌<◌, ◌≤◌}
use mathlib.Core.Path.{◌≡◌, refl, ap, ◌∙◌}
use mathlib.Core.List.{List, [], ◌∷◌, ◌++◌, map}
use mathlib.Core.Option.{Option, none, some}
use mathlib.Core.Bool.{false}
use chat_up.Base.Tests.{nat_beq}
use native.Mathlib.Omega.{arith}

module _ {ℓ} {A : Type ℓ} where
  abbrev pub length : List A → ℕ
  length [] = 0
  length (x ∷ xs) = suc (length xs)

  abbrev pub get_elem? : List A → ℕ → Option A
  get_elem? [] i = none
  get_elem? (x ∷ xs) zero = some x
  get_elem? (x ∷ xs) (suc i) = get_elem? xs i

  -- A write out of bounds changes nothing.
  abbrev pub set : List A → ℕ → A → List A
  set [] i v = []
  set (x ∷ xs) zero v = v ∷ xs
  set (x ∷ xs) (suc i) v = x ∷ set xs i v

  abbrev pub take : ℕ → List A → List A
  take zero xs = []
  take (suc n) [] = []
  take (suc n) (x ∷ xs) = x ∷ take n xs

  abbrev pub drop : ℕ → List A → List A
  drop zero xs = xs
  drop (suc n) [] = []
  drop (suc n) (x ∷ xs) = drop n xs

  abbrev pub replicate : ℕ → A → List A
  replicate zero a = []
  replicate (suc n) a = a ∷ replicate n a

  pub length-append : (xs ys : List A) → length (xs ++ ys) ≡ length xs + length ys
  length-append [] ys = omega arith
  length-append (x ∷ xs) ys = omega (arith, length-append xs ys)

  pub take-append-drop : (n : ℕ) (xs : List A) → take n xs ++ drop n xs ≡ xs
  take-append-drop zero xs = refl
  take-append-drop (suc n) [] = refl
  take-append-drop (suc n) (x ∷ xs) = ap (◌∷◌ x) (take-append-drop n xs)

  pub length-take : (n : ℕ) (xs : List A) → n ≤ length xs → length (take n xs) ≡ n
  length-take zero xs h = refl
  length-take (suc n) [] h = omega arith
  length-take (suc n) (x ∷ xs) h = ap suc (length-take n xs (omega arith))

  pub length-replicate : (n : ℕ) (a : A) → length (replicate n a) ≡ n
  length-replicate zero a = refl
  length-replicate (suc n) a = ap suc (length-replicate n a)

  pub length-set : (xs : List A) (i : ℕ) (v : A) → length (set xs i v) ≡ length xs
  length-set [] i v = refl
  length-set (x ∷ xs) zero v = refl
  length-set (x ∷ xs) (suc i) v = ap suc (length-set xs i v)

  -- An element in range splits its list.
  pub drop-get_elem? :
      (n : ℕ) (xs : List A) (a : A) → get_elem? xs n ≡ some a → drop n xs ≡ a ∷ drop (suc n) xs
  drop-get_elem? n [] a h = cc
  drop-get_elem? zero (x ∷ xs) a h = ground arith
  drop-get_elem? (suc n) (x ∷ xs) a h = drop-get_elem? n xs a h

  pub get_elem?-append : (xs ys : List A) (a : A) → get_elem? (xs ++ a ∷ ys) (length xs) ≡ some a
  get_elem?-append [] ys a = refl
  get_elem?-append (x ∷ xs) ys a = get_elem?-append xs ys a

  pub get_elem?-lt : (xs : List A) (n : ℕ) → n < length xs → (a : A) × (get_elem? xs n ≡ some a)
  get_elem?-lt [] n h = elim h [ ]
  get_elem?-lt (x ∷ xs) zero h = (x, refl)
  get_elem?-lt (x ∷ xs) (suc n) h = get_elem?-lt xs n (omega arith)

  pub get_elem?-eq_none : (xs : List A) (n : ℕ) → length xs ≤ n → get_elem? xs n ≡ none
  get_elem?-eq_none [] n h = refl
  get_elem?-eq_none (x ∷ xs) zero h = elim h [ ]
  get_elem?-eq_none (x ∷ xs) (suc n) h = get_elem?-eq_none xs n (omega arith)

suc_add : (m n : ℕ) → suc m + n ≡ suc (m + n)
suc_add m n = omega arith

abbrev pub sum : List ℕ → ℕ
sum [] = 0
sum (x ∷ xs) = x + sum xs

pub length-map {ℓ κ} :
    {A : Type ℓ} {B : Type κ} (f : A → B) (xs : List A) → length (map f xs) ≡ length xs
length-map f [] = refl
length-map f (x ∷ xs) = ap suc (length-map f xs)

module _ {ℓ} {A : Type ℓ} where
  pub drop-eq_nil : (n : ℕ) (xs : List A) → length xs ≤ n → drop n xs ≡ []
  drop-eq_nil zero [] h = refl
  drop-eq_nil zero (x ∷ xs) h = elim h [ ]
  drop-eq_nil (suc n) [] h = refl
  drop-eq_nil (suc n) (x ∷ xs) h = drop-eq_nil n xs (omega arith)

  -- A write in range, by the parts before and behind the row.
  pub set-split :
      (xs : List A) (n : ℕ) (a b : A)
      → get_elem? xs n ≡ some a
      → set xs n b ≡ take n xs ++ b ∷ drop (suc n) xs
  set-split [] n a b h = cc
  set-split (x ∷ xs) zero a b h = refl
  set-split (x ∷ xs) (suc n) a b h = ap (◌∷◌ x) (set-split xs n a b h)

  -- An element in range splits its list.
  pub split-at :
      (xs : List A) (n : ℕ) (a : A)
      → get_elem? xs n ≡ some a
      → xs ≡ take n xs ++ a ∷ drop (suc n) xs
  split-at [] n a h = cc
  split-at (x ∷ xs) zero a h = ground arith
  split-at (x ∷ xs) (suc n) a h = ap (◌∷◌ x) (split-at xs n a h)

  pub lt-of_get_elem? : (xs : List A) (n : ℕ) (a : A) → get_elem? xs n ≡ some a → n < length xs
  lt-of_get_elem? [] n a h = cc
  lt-of_get_elem? (x ∷ xs) zero a h = omega arith
  lt-of_get_elem? (x ∷ xs) (suc n) a h = omega (arith, lt-of_get_elem? xs n a h)

  pub get_elem?-insert :
      (xs : List A) (n : ℕ) (a : A)
      → n ≤ length xs
      → (get_elem? (take n xs ++ a ∷ drop n xs) n ≡ some a)
        × (get_elem? (take n xs ++ a ∷ drop n xs) (suc n) ≡ get_elem? xs n)
  get_elem?-insert xs zero a h = (refl, refl)
  get_elem?-insert [] (suc n) a h = elim h [ ]
  get_elem?-insert (x ∷ xs) (suc n) a h = get_elem?-insert xs n a (omega arith)

  pub length-insert :
      (xs : List A) (n : ℕ) (a : A) → length (take n xs ++ a ∷ drop n xs) ≡ suc (length xs)
  length-insert xs zero a = refl
  length-insert [] (suc n) a = refl
  length-insert (x ∷ xs) (suc n) a = ap suc (length-insert xs n a)

  pub get_elem?-set :
      (xs : List A) (r : ℕ) (a b : A) → get_elem? xs r ≡ some a → get_elem? (set xs r b) r ≡ some b
  get_elem?-set [] r a b e = cc
  get_elem?-set (x ∷ xs) zero a b e = refl
  get_elem?-set (x ∷ xs) (suc r) a b e = get_elem?-set xs r a b e

  pub set-set : (xs : List A) (r : ℕ) (a b : A) → set (set xs r a) r b ≡ set xs r b
  set-set [] r a b = refl
  set-set (x ∷ xs) zero a b = refl
  set-set (x ∷ xs) (suc r) a b = ap (λ q. x ∷ q) (set-set xs r a b)

  pub take-all : (n : ℕ) (xs : List A) → length xs ≤ n → take n xs ≡ xs
  take-all zero [] h = refl
  take-all zero (x ∷ xs) h = elim h [ ]
  take-all (suc n) [] h = refl
  take-all (suc n) (x ∷ xs) h = ap (◌∷◌ x) (take-all n xs (omega arith))

  pub length-drop : (n : ℕ) (xs : List A) → length (drop n xs) ≡ length xs - n
  length-drop zero xs = omega arith
  length-drop (suc n) [] = omega arith
  length-drop (suc n) (x ∷ xs) = omega (arith, length-drop n xs)

  pub take-nil : (n : ℕ) → take {A = A} n [] ≡ []
  take-nil zero = refl
  take-nil (suc n) = refl

  pub drop-nil : (n : ℕ) → drop {A = A} n [] ≡ []
  drop-nil zero = refl
  drop-nil (suc n) = refl

  pub take_add : (m n : ℕ) (xs : List A) → take (m + n) xs ≡ take m xs ++ take n (drop m xs)
  take_add zero n xs = ap (λ k. take k xs) (omega arith)
  take_add (suc m) n [] = rw (take-nil (suc m + n), take-nil n) refl
  take_add (suc m) n (x ∷ xs) =
      ap (λ k. take k (x ∷ xs)) (suc_add m n) ∙ ap (◌∷◌ x) (take_add m n xs)

  pub drop_add : (m n : ℕ) (xs : List A) → drop (m + n) xs ≡ drop n (drop m xs)
  drop_add zero n xs = ap (λ k. drop k xs) (omega arith)
  drop_add (suc m) n [] = rw (drop-nil (suc m + n), drop-nil n) refl
  drop_add (suc m) n (x ∷ xs) = ap (λ k. drop k (x ∷ xs)) (suc_add m n) ∙ drop_add m n xs

  -- A write elsewhere leaves an element.
  pub get_elem?-set_other :
      (xs : List A) (i j : ℕ) (v : A)
      → nat_beq i j ≡ false
      → get_elem? (set xs j v) i ≡ get_elem? xs i
  get_elem?-set_other [] i j v e = refl
  get_elem?-set_other (x ∷ xs) zero zero v e = cc
  get_elem?-set_other (x ∷ xs) zero (suc j) v e = refl
  get_elem?-set_other (x ∷ xs) (suc i) zero v e = refl
  get_elem?-set_other (x ∷ xs) (suc i) (suc j) v e = get_elem?-set_other xs i j v (ground arith)
