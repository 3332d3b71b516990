-- ===== src/Network/Json.antt =====
-- What lib/network uses of nlohmann::json, as an interface. The laws state the library's
-- documentation; `none` is the exception that it throws.
use chat_up.Base.{
  Bool, true, false, Option, none, some, List, [], ◌∷◌, String, ℤ, ◌≡◌, ◌==◌, string_eq,
  if◌then◌else◌,
}

-- The value of a key among the members of an object.
abbrev pub member? : {J : Type 0} → String → List (String × J) → Option J
member? k [] = none
member? k ((j, v) ∷ ms) = if j == k then some v else member? k ms

pub record Json : Type 1 where
  pub J : Type 0
  -- json(), which is null
  pub null : J
  pub of_int : ℤ → J
  pub of_string : String → J
  pub object : List (String × J) → J
  pub of_bool : Bool → J
  pub array : List J → J
  -- get_to(int&), get_to(std::string&)
  pub get_int : J → Option ℤ
  pub get_string : J → Option String
  pub get_bool : J → Option Bool
  -- what a loop over a value visits, as many as size() says
  pub items : J → List J
  pub is_object : J → Bool
  pub is_null : J → Bool
  -- at(key); contains(key) says whether it throws
  pub at : J → String → Option J
  -- j[key] = value on an object without the key
  pub put : String → J → J → J
  pub get_int-of_int : (n : ℤ) → get_int (of_int n) ≡ some n
  pub get_string-of_string : (s : String) → get_string (of_string s) ≡ some s
  pub get_bool-of_bool : (b : Bool) → get_bool (of_bool b) ≡ some b
  pub items-array : (js : List J) → items (array js) ≡ js
  pub is_object-array : (js : List J) → is_object (array js) ≡ false
  pub is_object-null : is_object null ≡ false
  pub is_null-of_int : (n : ℤ) → is_null (of_int n) ≡ false
  pub is_null-of_string : (s : String) → is_null (of_string s) ≡ false
  pub get_string-null : get_string null ≡ none
  pub is_object-object : (ms : List (String × J)) → is_object (object ms) ≡ true
  pub at-object : (ms : List (String × J)) (k : String) → at (object ms) k ≡ member? k ms
  pub put-object :
      (k : String) (v : J) (ms : List (String × J))
      → member? k ms ≡ none
      → put k v (object ms) ≡ object ((k, v) ∷ ms)
