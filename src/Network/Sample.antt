-- ===== src/Network/Sample.antt =====
-- A JSON value as a data type, at which the theorems of lib/network are tried: it has what
-- Network/Json.antt asks of nlohmann::json.
use chat_up.Base.{
  Bool, true, false, Option, none, some, List, [], ◌∷◌, String, ℤ, ◌≡◌, refl, ◌==◌, string_eq,
  if◌then◌else◌,
}
use chat_up.Network.Json.{Json, member?}

mutual
  pub data Value : Type 0 where
    null_value : Value
    int_value : ℤ → Value
    text_value : String → Value
    bool_value : Bool → Value
    object_value : Members → Value
    array_value : Elements → Value

  pub data Members : Type 0 where
    end : Members
    member : String → Value → Members → Members

  pub data Elements : Type 0 where
    none_left : Elements
    element : Value → Elements → Elements

members : List (String × Value) → Members
members [] = end
members ((k, v) ∷ ms) = member k v (members ms)

find : String → Members → Option Value
find k end = none
find k (member j v ms) = if j == k then some v else find k ms

find-members : (k : String) (ms : List (String × Value)) → find k (members ms) ≡ member? k ms
unfolding find members
find-members k [] = refl
find-members k ((j, v) ∷ ms) = rw (find-members k ms)

elements : List Value → Elements
elements [] = none_left
elements (v ∷ vs) = element v (elements vs)

visited : Elements → List Value
visited none_left = []
visited (element v vs) = v ∷ visited vs

visited-elements : (vs : List Value) → visited (elements vs) ≡ vs
unfolding visited elements
visited-elements [] = refl
visited-elements (v ∷ vs) = rw (visited-elements vs)

at : Value → String → Option Value
at (object_value ms) k = find k ms
at v k = none

put : String → Value → Value → Value
put k v (object_value ms) = object_value (member k v ms)
put k v w = w

is_object : Value → Bool
is_object (object_value ms) = true
is_object v = false

is_null : Value → Bool
is_null null_value = true
is_null v = false

get_int : Value → Option ℤ
get_int (int_value n) = some n
get_int v = none

get_string : Value → Option String
get_string (text_value s) = some s
get_string v = none

get_bool : Value → Option Bool
get_bool (bool_value b) = some b
get_bool v = none

items : Value → List Value
unfolding visited
items (array_value vs) = visited vs
items v = []

pub sample : Json
unfolding get_bool items elements at put is_object is_null get_int get_string members
sample = record {
  J = Value;
  null = null_value;
  of_int = int_value;
  of_string = text_value;
  object = λ ms. object_value (members ms);
  of_bool = bool_value;
  array = λ vs. array_value (elements vs);
  get_bool = get_bool;
  items = items;
  get_bool-of_bool = λ b. refl;
  items-array = λ vs. visited-elements vs;
  is_object-array = λ vs. refl;
  is_object-null = refl;
  is_null-of_int = λ n. refl;
  is_null-of_string = λ s. refl;
  get_int = get_int;
  get_string = get_string;
  is_object = is_object;
  is_null = is_null;
  at = at;
  put = put;
  get_int-of_int = λ n. refl;
  get_string-of_string = λ s. refl;
  get_string-null = refl;
  is_object-object = λ ms. refl;
  at-object = λ ms k. find-members k ms;
  put-object = λ k v ms e. refl;
}
