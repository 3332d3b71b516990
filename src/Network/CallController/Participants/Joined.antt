-- ===== src/Network/CallController/Participants/Joined.antt =====
-- Who takes part in a call after `join` and `disconnect`, and what `reset` does then
-- (lib/network/controllers/callcontroller.cpp).
use chat_up.Base.{
  get_elem?-set, ℕ, ◌≡◌, ◌<◌, refl, ap, sym, subst, ◌∙◌, false, Option, none, some, [], ◌∷◌, ℤ,
  int_eq, Option-cases, Bool-cases, inl, inr, length, length-set, get_elem?, get_elem?-lt, drop,
  arith,
}
use chat_up.Base.Map
use chat_up.Core.Toolkit.{Toolkit}
use chat_up.Core.Participate.{ParticipateData, new_participate, kind, read}
use chat_up.Core.IdentifyingModel.{ids}
use chat_up.Core.IdentifyingModel.Rows.{member}
use chat_up.Core.IdentifyingModel.Indexed.{IsIndexed}
use chat_up.Core.IdentifyingModel.Keeps.{remove_rows-IsIndexed, id_to_index_iff}
use chat_up.Network.CallController.{
  CallController, reset, CallState, disconnected, inside_the_call, same_state, set_state,
  with_handle, participants_of, with_participants,
}
use chat_up.Network.CallController.Participants.{
  Participants, index_of, remove_id, put_first, joined, left, room_of, on_disconnect,
}
use chat_up.Network.CallController.Participants.Members.{
  put_first_lem, participants_of-with_participants, with_participants-length,
}

module _ {K : Type 0} where
  state_put :
      (h : ℕ) (s : CallState) (c : CallController K)
      → h < length c.handles
      → let d = with_handle h (λ y. record y { state = s }) c in
        (participants_of h d ≡ participants_of h c) × (length d.handles ≡ length c.handles)
  unfolding with_handle participants_of
  state_put h s c lt =
      let (x, e) = get_elem?-lt c.handles h lt in
      let y = record x { state = s } in
      rw (e, with_handle, participants_of)
        (rw (get_elem?-set c.handles h x y e) (refl, length-set c.handles h y))

  set_state-keeps :
      (s : CallState) (h : ℕ) (c : CallController K)
      → h < length c.handles
      → let d = (set_state s h c).0 in
        (participants_of h d ≡ participants_of h c) × (length d.handles ≡ length c.handles)
  unfolding set_state
  set_state-keeps s h c lt =
      let (x, e) = get_elem?-lt c.handles h lt in
      elim (Bool-cases (same_state s x.state)) [
        | inl q ↦ rw (e, q, set_state) (refl, refl)
        | inr q ↦ rw (e, q, set_state) (state_put h s c lt)
      ]

module _ {V : Type 0} (kit : Toolkit V) where
  remove_id-put_first :
      (p : ParticipateData) (m : Participants)
      → IsIndexed kit (kind kit) m
      → member p.user_id (ids kit (kind kit) m.items) ≡ false
      → let n = remove_id kit p.user_id (put_first kit p m) in
        (n.items ≡ m.items) × IsIndexed kit (kind kit) n
  unfolding remove_id kind read
  remove_id-put_first p m v new =
      let n = put_first kit p m in
      let (items, w) = put_first_lem kit p m v new in
      let here : get_elem? n.items 0 ≡ some p = ap (λ q. get_elem? q 0) items in
      let found : index_of kit p.user_id n ≡ some 0 =
        (id_to_index_iff kit (kind kit) n p.user_id 0 w).1 (p, here, kit.to_int-of_int p.user_id) in
      let lt : 0 < length n.items = subst (λ q. 0 < length q) (sym items) (omega arith) in
      let (_, cut, x) = remove_rows-IsIndexed kit (kind kit) n 0 w lt in
      rw (found, remove_id) (cut ∙ ap (drop 1) items, x)

module _ {K V : Type 0} (kit : Toolkit V) where
  joined-participants :
      (current : ℤ) (h : ℕ) (c : CallController K)
      → h < length c.handles
      → let d = (joined kit current h c).0 in
        (participants_of h d
          ≡ put_first kit (record new_participate { user_id = current }) (participants_of h c))
        × (h < length d.handles)
  unfolding joined participants_of
  joined-participants current h c lt =
      let f = put_first kit (record new_participate { user_id = current }) in
      let d = (set_state inside_the_call h c).0 in
      let (same, range) = set_state-keeps inside_the_call h c lt in
      let inside = subst (λ n. h < n) (sym range) lt in
      let e = record d { active_call_room = room_of kit h d } in
      (
        participants_of-with_participants h f e inside ∙ ap f same,
        subst (λ n. h < n) (sym (with_participants-length h f e)) inside,
      )

  -- A user who joins a call, of which the user is no participant, and leaves it: the participants are
  -- those from before, in their rows, and their index agrees with the rows.
  pub joined-left :
      (current : ℤ) (h : ℕ) (c : CallController K)
      → h < length c.handles
      → IsIndexed kit (kind kit) (participants_of h c)
      → member current (ids kit (kind kit) (participants_of h c).items) ≡ false
      → let d = (joined kit current h c).0 in
        let e = (left kit current h d).0 in
        ((participants_of h d).items
          ≡ record new_participate { user_id = current } ∷ (participants_of h c).items)
        × ((participants_of h e).items ≡ (participants_of h c).items)
        × IsIndexed kit (kind kit) (participants_of h e)
  unfolding left
  joined-left current h c lt v new =
      let p = record new_participate { user_id = current } in
      let d = (joined kit current h c).0 in
      let (now, inside) = joined-participants current h c lt in
      let (same, range) = set_state-keeps disconnected h d inside in
      let end =
        participants_of-with_participants h (remove_id kit current) (set_state disconnected h d).0
          (subst (λ n. h < n) (sym range) inside)
        ∙ ap (remove_id kit current) (same ∙ now) in
      let (items, w) = put_first_lem kit p (participants_of h c) v new in
      let (back, x) = remove_id-put_first kit p (participants_of h c) v new in
      (
        ap (λ (n : Participants). n.items) now ∙ items,
        ap (λ (n : Participants). n.items) end ∙ back,
        subst (λ n. IsIndexed kit (kind kit) n) (sym end) x,
      )

module _ {K : Type 0} where
  room_kept :
      (h : ℕ) (f : Participants → Participants) (c : CallController K)
      → (with_participants h f c).active_call_room ≡ c.active_call_room
  unfolding with_participants with_handle
  room_kept h f c = elim (Option-cases (get_elem? c.handles h)) [
    | inl e ↦ rw (e, with_handle) refl
    | inr (x, e) ↦ rw (e, with_handle) refl
  ]

  reset-no_room :
      (no_config : K) (c : CallController K)
      → c.active_call_room ≡ none
      → reset no_config c ≡ some (record c { active_call_room = none; by_room = Map.empty }, [])
  unfolding reset
  reset-no_room no_config c e =
      subst
        (λ a.
          reset no_config (record c { active_call_room = a })
          ≡ some (record c { active_call_room = none; by_room = Map.empty }, []))
        (sym e) refl

module _ {K V : Type 0} (kit : Toolkit V) where
  -- Whoever it was that left a call and in whatever room, a reset that follows sends nothing to the
  -- server and closes no stream: the user's own call is forgotten without a `disconnect`.
  pub on_disconnect-reset :
      (no_config : K) (part : ParticipateData) (c : CallController K)
      → let d = (on_disconnect kit part c).0 in
        reset no_config d ≡ some (record d { active_call_room = none; by_room = Map.empty }, [])
  unfolding on_disconnect
  on_disconnect-reset no_config part c =
      reset-no_room no_config (on_disconnect kit part c).0
        (forgotten (Map.lookup part.room_id c.by_room))
    where
      d : CallController K
      d = record c { connectors = Map.erase part.user_id c.connectors; active_call_room = none }

      forgotten_row :
          (h : ℕ) (o : Option ℕ)
          → (elim o as (λ x. CallController K) [
            | none ↦ d
            | some r ↦ with_participants h (remove_id kit part.user_id) d
          ]).active_call_room
            ≡ none
      forgotten_row h none = refl
      forgotten_row h (some r) = room_kept h (remove_id kit part.user_id) d

      forgotten :
          (o : Option ℕ)
          → (elim o as (λ x. CallController K) [
            | none ↦ d
            | some h ↦ elim (index_of kit part.user_id (participants_of h c)) [
              | none ↦ d
              | some r ↦ with_participants h (remove_id kit part.user_id) d
            ]
          ]).active_call_room
            ≡ none
      forgotten none = refl
      forgotten (some h) = forgotten_row h (index_of kit part.user_id (participants_of h c))
