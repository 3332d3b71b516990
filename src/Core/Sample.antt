-- ===== src/Core/Sample.antt =====
-- A `QVariant` as a data type, at which the theorems on groups are tried: it has what Core/Values.antt
-- asks of Qt. A time is a number, bytes are a text, and a hash cannot be stored.
use chat_up.Base.{
  ℕ, Bool, true, false, Option, none, some, String, ℤ, pos, negsuc, ltb, refl, if◌then◌else◌,
}
use chat_up.Base.Map
use chat_up.Core.Toolkit.{Toolkit}
use chat_up.Core.Values.{Values}

data Variant : Type 0 where
  invalid : Variant
  number : ℤ → Variant
  word : ℕ → Variant
  flag : Bool → Variant
  text : String → Variant
  bytes : String → Variant
  stamp : ℕ → Variant

row : ℕ → ℤ → Option ℕ
row rows (pos r) = if ltb r rows then some r else none
row rows (negsuc r) = none

has_value : Variant → Bool
has_value invalid = false
has_value _ = true

is_number : Variant → Bool
is_number (number n) = true
is_number (word n) = true
is_number _ = false

number_of : Variant → ℤ
number_of (number n) = n
number_of (word n) = pos n
number_of _ = pos 0

is_flag : Variant → Bool
is_flag (flag b) = true
is_flag _ = false

flag_of : Variant → Bool
flag_of (flag b) = b
flag_of _ = false

is_text : Variant → Bool
is_text (text s) = true
is_text (bytes s) = true
is_text _ = false

text_of : Variant → String
text_of (text s) = s
text_of (bytes s) = s
text_of _ = ""

is_stamp : Variant → Bool
is_stamp (stamp n) = true
is_stamp _ = false

stamp_of : Variant → ℕ
stamp_of (stamp n) = n
stamp_of _ = 0

is_word : Variant → Bool
is_word (word n) = true
is_word _ = false

word_of : Variant → ℕ
word_of (word n) = n
word_of _ = 0

kit : Toolkit Variant
unfolding row has_value is_number number_of is_flag flag_of
kit = record {
  index = row;
  index-pos = λ rows r. refl;
  index-negsuc = λ rows r. refl;
  invalid = invalid;
  is_valid = has_value;
  of_int = number;
  can_int = is_number;
  to_int = number_of;
  of_bool = flag;
  can_bool = is_flag;
  to_bool = flag_of;
  is_valid-of_int = λ n. refl;
  can_int-of_int = λ n. refl;
  to_int-of_int = λ n. refl;
  is_valid-of_bool = λ b. refl;
  can_bool-of_bool = λ b. refl;
  to_bool-of_bool = λ b. refl;
}

pub sample : Values
unfolding kit has_value is_number number_of is_text text_of is_stamp stamp_of is_word word_of
sample = record {
  V = Variant;
  kit = kit;
  Time = ℕ;
  no_time = 0;
  Bytes = String;
  no_bytes = "";
  of_string = text;
  can_string = is_text;
  to_string = text_of;
  of_time = stamp;
  can_time = is_stamp;
  to_time = stamp_of;
  of_bytes = bytes;
  can_bytes = is_text;
  to_bytes = text_of;
  of_uint = word;
  can_uint = is_word;
  to_uint = word_of;
  of_hash = λ h. invalid;
  can_hash = λ v. false;
  to_hash = λ v. Map.empty;
  is_valid-of_string = λ s. refl;
  can_string-of_string = λ s. refl;
  to_string-of_string = λ s. refl;
  is_valid-of_time = λ t. refl;
  can_time-of_time = λ t. refl;
  to_time-of_time = λ t. refl;
  is_valid-of_bytes = λ b. refl;
  can_string-of_bytes = λ b. refl;
  is_valid-of_uint = λ n. refl;
  can_int-of_uint = λ n. refl;
  to_int-of_uint = λ n lt. refl;
}
