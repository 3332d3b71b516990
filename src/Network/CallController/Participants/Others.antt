-- ===== src/Network/CallController/Participants/Others.antt =====
-- The loops over the participants of a call in lib/network/controllers/callcontroller.cpp.
use chat_up.Base.{
  lt→ltb, lt-of_get_elem?, get_elem?-append, append_assoc, length-append, suc, ◌≡◌, refl, sym, ap,
  ◌∙◌, true, some, List, [], ◌∷◌, ◌++◌, ℤ, pos, ◌==◌, int_eq, ltb, length, get_elem?, arith,
  if◌then◌else◌,
}
use chat_up.Core.Toolkit.{Toolkit}
use chat_up.Core.Participate.{ParticipateData, user_role, kind}
use chat_up.Core.IdentifyingModel.{ids}
use chat_up.Core.IdentifyingModel.Edits.{data_role_lem}
use chat_up.Network.CallController.Participants.{Participants, others, others_from}

-- The ids but one.
abbrev pub except : ℤ → List ℤ → List ℤ
except current [] = []
except current (i ∷ is) = let rest = except current is in if i == current then rest else i ∷ rest

module _ {V : Type 0} (kit : Toolkit V) where
  others_from_lem :
      (current : ℤ) (xs ys : List ParticipateData) (m : Participants)
      → m.items ≡ xs ++ ys
      → others_from kit current (length ys) (length xs) m ≡ except current (ids kit (kind kit) ys)
  unfolding others_from
  others_from_lem current xs [] m e = refl
  others_from_lem current xs (y ∷ ys) m e =
      let here : get_elem? m.items (length xs) ≡ some y =
        ap (λ q. get_elem? q (length xs)) e ∙ get_elem?-append xs ys y in
      let lt : ltb (length xs) (length m.items) ≡ true =
        lt→ltb (length xs) (length m.items) (lt-of_get_elem? m.items (length xs) y here) in
      let row : kit.index (length m.items) (pos (length xs)) ≡ some (length xs) =
        kit.index-pos (length m.items) (length xs) ∙ rw lt refl in
      let next =
        others_from_lem current (xs ++ y ∷ []) ys m (e ∙ sym (append_assoc xs (y ∷ []) ys)) in
      let len : length (xs ++ y ∷ []) ≡ suc (length xs) = length-append xs (y ∷ []) ∙ omega arith in
      rw (row, data_role_lem kit (kind kit) m (length xs) y user_role here)
        (ap
          (λ rest.
            if kit.to_int ((kind kit).read y user_role) == current
            then rest
            else kit.to_int ((kind kit).read y user_role) ∷ rest)
          (ap (λ n. others_from kit current (length ys) n m) (sym len) ∙ next))

  -- The loops over the rows of a model reach the ids of its items, in order, but the user's own.
  pub others_lem :
      (current : ℤ) (m : Participants)
      → others kit current m ≡ except current (ids kit (kind kit) m.items)
  unfolding others
  others_lem current m = others_from_lem current [] m.items m refl
