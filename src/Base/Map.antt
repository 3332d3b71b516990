-- ===== src/Base/Map.antt =====
-- `std::unordered_map` and `QHash`, with keys that have an `operator==`. The representation is
-- private; clients have `map_laws`. The order of the entries is not observed.
use mathlib.Core.Path.{◌≡◌, refl}
use mathlib.Core.Bool.{Bool, true, false}
use mathlib.Core.Option.{Option, none, some}
use mathlib.Core.List.{List, [], ◌∷◌, map}
use native.Mathlib.Omega.{arith}
use Prim.Native.Nat.{ℕ}
use chat_up.Base.Tests.{Eq, ◌==◌, if◌then◌else◌}
use chat_up.Base.Lists.{length}

pub record Map {ℓ κ} (K : Type ℓ) (V : Type κ) : Type (ℓ ⊔ κ) where
  entries : List (K × V)

module _ {ℓ κ} {K : Type ℓ} {V : Type κ} where
  pub empty : Map K V
  empty = record { entries = [] }

  pub size : Map K V → ℕ
  size m = length m.entries

  -- The values, in the order in which a loop over the map meets them.
  pub values : Map K V → List V
  values m = map (λ p. p.1) m.entries

module _ {ℓ κ} {K : Type ℓ} {V : Type κ} ⦃e : Eq K⦄ where
  look : K → List (K × V) → Option V
  look k [] = none
  look k ((j, v) ∷ m) = if j == k then some v else look k m

  without : K → List (K × V) → List (K × V)
  without k [] = []
  without k ((j, v) ∷ m) = let rest = without k m in if j == k then rest else (j, v) ∷ rest

  -- m.at(k), with `none` for a missing key
  pub lookup : K → Map K V → Option V
  lookup k m = look k m.entries

  -- m.contains(k)
  pub contains : K → Map K V → Bool
  contains k m = elim (lookup k m) [ none ↦ false | some _ ↦ true ]

  -- m.erase(k)
  pub erase : K → Map K V → Map K V
  erase k m = record { entries = without k m.entries }

  -- m[k] = v
  pub insert : K → V → Map K V → Map K V
  insert k v m = record { entries = (k, v) ∷ without k m.entries }

  -- m.emplace(k, v) and m.insert({k, v}): an entry that is there stays
  pub emplace : K → V → Map K V → Map K V
  emplace k v m = if contains k m then m else insert k v m

  look-without :
      (k j : K) (m : List (K × V)) → look j (without k m) ≡ (if k == j then none else look j m)
  unfolding look without
  look-without k j [] = ground arith
  look-without k j ((i, v) ∷ m) =
      ground (arith, look-without k j m, e.is_same_iff i k, e.is_same_iff i j, e.is_same_iff k j)

  pub lookup-erase :
      (k j : K) (m : Map K V) → lookup j (erase k m) ≡ (if k == j then none else lookup j m)
  unfolding lookup erase
  lookup-erase k j m = look-without k j m.entries

  pub lookup-insert :
      (k j : K) (v : V) (m : Map K V)
      → lookup j (insert k v m) ≡ (if k == j then some v else lookup j m)
  unfolding lookup insert look
  lookup-insert k j v m = ground (arith, look-without k j m.entries)

  pub lookup-emplace :
      (k j : K) (v : V) (m : Map K V)
      → lookup j (emplace k v m)
        ≡ (if contains k m then lookup j m else if k == j then some v else lookup j m)
  unfolding emplace
  lookup-emplace k j v m = ground (arith, lookup-insert k j v m)

  pub contains_lem :
      (k : K) (m : Map K V) → contains k m ≡ elim (lookup k m) [ none ↦ false | some _ ↦ true ]
  unfolding contains
  contains_lem k m = refl

pub lookup-empty {ℓ κ} :
    {K : Type ℓ} {V : Type κ} ⦃e : Eq K⦄ (k : K) → lookup k (empty {K = K} {V = V}) ≡ none
unfolding lookup empty look
lookup-empty k = refl

pub ruleset map_laws = (lookup-empty, lookup-insert, lookup-erase, lookup-emplace, contains_lem)
