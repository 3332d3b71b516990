-- ===== src/Core/Toolkit.antt =====
-- What the models of lib/core/models use of Qt, as an interface: `QAbstractListModel::index` and the
-- conversions of `QVariant`. The laws state Qt's documentation of them.
use chat_up.Base.{ℕ, Option, none, some, Bool, true, ◌≡◌, ℤ, pos, negsuc, ltb, if◌then◌else◌}

pub record Toolkit (V : Type 0) : Type 0 where
  -- index(row) of a list model with that many rows; an invalid `QModelIndex` is `none`
  pub index : ℕ → ℤ → Option ℕ
  pub index-pos : (rows r : ℕ) → index rows (pos r) ≡ (if ltb r rows then some r else none)
  pub index-negsuc : (rows r : ℕ) → index rows (negsuc r) ≡ none
  -- QVariant(), isValid(), canConvert<int>() and toInt(), and for bool
  pub invalid : V
  pub is_valid : V → Bool
  pub of_int : ℤ → V
  pub can_int : V → Bool
  pub to_int : V → ℤ
  pub of_bool : Bool → V
  pub can_bool : V → Bool
  pub to_bool : V → Bool
  pub is_valid-of_int : (n : ℤ) → is_valid (of_int n) ≡ true
  pub can_int-of_int : (n : ℤ) → can_int (of_int n) ≡ true
  pub to_int-of_int : (n : ℤ) → to_int (of_int n) ≡ n
  pub is_valid-of_bool : (b : Bool) → is_valid (of_bool b) ≡ true
  pub can_bool-of_bool : (b : Bool) → can_bool (of_bool b) ≡ true
  pub to_bool-of_bool : (b : Bool) → to_bool (of_bool b) ≡ b
