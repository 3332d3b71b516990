-- ===== src/Network/CallController/Handles.antt =====
-- The handles of the rooms (lib/network/controllers/callcontroller.cpp).
use chat_up.Base.{
  ℕ, ◌≡◌, refl, subst, ◌∙◌, Bool, true, false, Option, none, some, List, [], ◌∷◌, ℤ, int_eq,
  beq_self, Option-cases, inl, inr, max, if◌then◌else◌,
}
use chat_up.Base.Map
use chat_up.Network.CallController.{CallController, Effect, handle, take_handle, grow_handle_pool}

module _ {K : Type 0} where
  -- The handle that a method answers, if any, is the one of the room.
  abbrev Held : ℤ → Option (ℕ × CallController K × List (Effect K)) → Type 0
  Held room none = Unit
  Held room (some (h, d, fx)) = Map.lookup room d.by_room ≡ some h

  take_handle-Held :
      (room : ℤ) (pool : List ℕ) (c : CallController K) → Held room (take_handle room pool c)
  unfolding take_handle
  take_handle-Held room [] c = tt
  take_handle-Held room (g ∷ gs) c =
      Map.lookup-insert room room g c.by_room ∙ rw (beq_self room) refl

  handle-Held : (grows : Bool) (room : ℤ) (c : CallController K) → Held room (handle grows room c)
  unfolding handle
  handle-Held grows room c = elim (Option-cases (Map.lookup room c.by_room)) [
    | inr (h, e) ↦ rw (e, handle) e
    | inl e ↦ rw (e, handle) (fresh grows c.free_handle_pool)
  ]
    where
      fresh :
          (grows : Bool) (pool : List ℕ)
          → Held room (elim pool [
            | h ∷ hs ↦ take_handle room (h ∷ hs) c
            | [] ↦
                let grown = grow_handle_pool (max (Map.size c.by_room) 10) c in
                if grows then take_handle room grown.free_handle_pool grown else none
          ])
      fresh grows (h ∷ hs) = take_handle-Held room (h ∷ hs) c
      fresh false [] = tt
      fresh true [] =
          let grown = grow_handle_pool (max (Map.size c.by_room) 10) c in
          take_handle-Held room grown.free_handle_pool grown

  -- The handle that a room got is the one that it gets again, without a change or another request to
  -- the server.
  pub handle-again :
      (grows again : Bool) (room : ℤ) (c d : CallController K) (h : ℕ) (fx : List (Effect K))
      → handle grows room c ≡ some (h, d, fx)
      → handle again room d ≡ some (h, d, [])
  unfolding handle
  handle-again grows again room c d h fx e =
      let held : Map.lookup room d.by_room ≡ some h =
        subst (Held room) e (handle-Held grows room c) in
      rw (held, handle) refl
