-- ===== src/Core/Values.antt =====
-- What the group, message and participant data use of Qt besides Core/Toolkit.antt: the types that a
-- `QVariant` holds, their conversions and defaults. The laws state Qt's documentation. What a
-- conversion of another value gives is open.
use chat_up.Base.{ℕ, ◌<◌, ◌≡◌, ◌^◌, Bool, true, String, pos}
use chat_up.Base.Map.{Map}
use chat_up.Core.Toolkit.{Toolkit}

pub record Values : Type 1 where
  pub V : Type 0
  pub kit : Toolkit V
  -- QDateTime and QByteArray
  pub Time : Type 0
  pub no_time : Time
  pub Bytes : Type 0
  pub no_bytes : Bytes
  pub of_string : String → V
  pub can_string : V → Bool
  pub to_string : V → String
  pub of_time : Time → V
  pub can_time : V → Bool
  pub to_time : V → Time
  pub of_bytes : Bytes → V
  pub can_bytes : V → Bool
  pub to_bytes : V → Bytes
  pub of_uint : ℕ → V
  pub can_uint : V → Bool
  pub to_uint : V → ℕ
  -- QVariantHash
  pub of_hash : Map String V → V
  pub can_hash : V → Bool
  pub to_hash : V → Map String V
  pub is_valid-of_string : (s : String) → kit.is_valid (of_string s) ≡ true
  pub can_string-of_string : (s : String) → can_string (of_string s) ≡ true
  pub to_string-of_string : (s : String) → to_string (of_string s) ≡ s
  pub is_valid-of_time : (t : Time) → kit.is_valid (of_time t) ≡ true
  pub can_time-of_time : (t : Time) → can_time (of_time t) ≡ true
  pub to_time-of_time : (t : Time) → to_time (of_time t) ≡ t
  pub is_valid-of_bytes : (b : Bytes) → kit.is_valid (of_bytes b) ≡ true
  pub can_string-of_bytes : (b : Bytes) → can_string (of_bytes b) ≡ true
  pub is_valid-of_uint : (n : ℕ) → kit.is_valid (of_uint n) ≡ true
  pub can_int-of_uint : (n : ℕ) → kit.can_int (of_uint n) ≡ true
  pub to_int-of_uint : (n : ℕ) → n < 2 ^ 31 → kit.to_int (of_uint n) ≡ pos n
