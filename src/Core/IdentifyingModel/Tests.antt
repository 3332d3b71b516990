-- ===== src/Core/IdentifyingModel/Tests.antt =====
-- The theorems of IdentifyingModel at concrete models of two items (lib/core/models/identifyingmodel.h).
use chat_up.Base.{
  ℕ, zero, suc, ◌≡◌, refl, Bool, true, false, Option, none, some, List, [], ◌∷◌, ◌++◌, ℤ, pos,
  negsuc, ltb, int_eq, if◌then◌else◌, get_elem?, take, drop, arith,
}
use chat_up.Core.Toolkit.{Toolkit}
use chat_up.Core.IdentifyingModel.{
  IdentifyingModel, ItemType, empty, id_of, id_to_index, insert_data_list, insert_rows, splice,
}
use chat_up.Core.IdentifyingModel.Indexed.{IsIndexed}
use chat_up.Core.IdentifyingModel.Keeps.{empty-IsIndexed, insert_data_list-IsIndexed}
use chat_up.Core.IdentifyingModel.Refines.{Command, insert, remove, replace, run, run-refines}
use chat_up.Core.IdentifyingModel.Stale.{insert_rows-stale}

data Variant : Type 0 where
  invalid : Variant
  number : ℤ → Variant
  flag : Bool → Variant

row : ℕ → ℤ → Option ℕ
row rows (pos r) = if ltb r rows then some r else none
row rows (negsuc r) = none

has_value : Variant → Bool
has_value invalid = false
has_value v = true

is_number : Variant → Bool
is_number (number n) = true
is_number v = false

number_of : Variant → ℤ
number_of (number n) = n
number_of v = pos 0

is_flag : Variant → Bool
is_flag (flag b) = true
is_flag v = false

flag_of : Variant → Bool
flag_of (flag b) = b
flag_of v = false

kit : Toolkit Variant
unfolding row has_value is_number number_of is_flag flag_of
kit = record {
  index = row;
  index-pos = λ rows r. refl;
  index-negsuc = λ rows r. refl;
  invalid = invalid;
  is_valid = has_value;
  of_int = number;
  can_int = is_number;
  to_int = number_of;
  of_bool = flag;
  can_bool = is_flag;
  to_bool = flag_of;
  is_valid-of_int = λ n. refl;
  can_int-of_int = λ n. refl;
  to_int-of_int = λ n. refl;
  is_valid-of_bool = λ b. refl;
  can_bool-of_bool = λ b. refl;
  to_bool-of_bool = λ b. refl;
}

record Contact : Type 0 where
  id : ℤ
  online : Bool

read : Contact → ℕ → Variant
read t zero = number t.id
read t (suc zero) = flag t.online
read t (suc (suc n)) = invalid

edit : Contact → Variant → ℕ → Contact × Bool
edit t (number n) zero = (record t { id = n }, true)
edit t (flag b) (suc zero) = (record t { online = b }, true)
edit t v n = (t, false)

kind : ItemType Contact Variant
kind = record { read = read; edit = edit; create = record { id = pos 0; online = false } }

abbrev contact : ℕ → Contact
contact n = record { id = pos n; online = true }

abbrev two : IdentifyingModel Contact
two = (insert_data_list kit kind (pos 0) (contact 7 ∷ contact 9 ∷ []) empty).0

insert_data_list-IsIndexed_example :
    let (n, done) = insert_data_list kit kind (pos 0) (contact 7 ∷ contact 9 ∷ []) empty in
    (done ≡ true)
    × (n.items ≡ take 0 empty.items ++ (contact 7 ∷ contact 9 ∷ [] ++ drop 0 empty.items))
    × IsIndexed kit kind n
unfolding empty kit kind row number_of read
insert_data_list-IsIndexed_example =
    insert_data_list-IsIndexed kit kind empty 0 (contact 7 ∷ contact 9 ∷ [])
      (empty-IsIndexed kit kind) (omega arith) (omega arith) (refl, (refl, tt)) (refl, (refl, tt))

two-IsIndexed : IsIndexed kit kind two
two-IsIndexed = insert_data_list-IsIndexed_example.2

abbrev three_commands : List (Command Contact)
three_commands = insert 0 (contact 7 ∷ contact 9 ∷ []) ∷ remove 0 ∷ replace 0 (contact 8) ∷ []

run-refines_example :
    ((run kit kind three_commands empty).items ≡ contact 8 ∷ [])
    × (id_to_index kit kind (pos 8) (run kit kind three_commands empty) ≡ some 0)
unfolding kit kind row number_of read
run-refines_example = run-refines kit kind three_commands (pos 8) (
  omega arith,
  omega arith,
  (refl, (refl, tt)),
  (refl, (refl, tt)),
  (omega arith, (omega arith, refl, tt)),
)

insert_rows-stale_example :
    let (n, done) = insert_rows kit kind (pos 1) (pos 1) two in
    (done ≡ true)
    × (get_elem? n.items 1 ≡ some kind.create)
    × (get_elem? n.items 2 ≡ some (contact 9))
    × (id_to_index kit kind (id_of kit kind (contact 9)) n ≡ some 1)
unfolding insert_data_list empty splice kit kind row number_of read
insert_rows-stale_example =
    insert_rows-stale kit kind two 1 (contact 9) two-IsIndexed refl refl (λ e. cc e)
