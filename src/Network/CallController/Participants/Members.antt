-- ===== src/Network/CallController/Participants/Members.antt =====
-- Who takes part in a call, after the handlers of lib/network/controllers/callcontroller.cpp.
use chat_up.Base.{
  get_elem?-set, length-set, Bool-cases, Option-cases, inl, inr, ◌||◌, ℕ, ◌<◌, ◌≡◌, refl, sym, ap,
  subst, ◌∙◌, Bool, true, false, not, Option, none, some, List, [], ◌∷◌, ◌++◌, ℤ, pos, int_eq,
  length, get_elem?, get_elem?-lt, arith, if◌then◌else◌,
}
use chat_up.Core.Toolkit.{Toolkit}
use chat_up.Core.Participate.{ParticipateData, has_audio_role, has_video_role, kind, read}
use chat_up.Core.IdentifyingModel.{ids}
use chat_up.Core.IdentifyingModel.Edits.{insert_data_lem}
use chat_up.Network.CallController.{
  CallController, Effect, local_video_opened, local_audio_opened, participants_of,
  with_participants, with_handle,
}
use chat_up.Network.CallController.Participants.{
  Participants, bool_data, put_first, index_of, let_in, open_for, open_both,
}
use chat_up.Media.SinkConnector.{is_set}
use chat_up.Core.IdentifyingModel.Rows.{member}
use chat_up.Core.IdentifyingModel.Indexed.{IsIndexed}
use chat_up.Core.IdentifyingModel.Keeps.{insert_data_list-IsIndexed, located, not_located}

module _ {K : Type 0} where
  pub participants_of-with_participants :
      (h : ℕ) (f : Participants → Participants) (c : CallController K)
      → h < length c.handles
      → participants_of h (with_participants h f c) ≡ f (participants_of h c)
  unfolding participants_of with_participants with_handle
  participants_of-with_participants h f c lt =
      let (x, e) = get_elem?-lt c.handles h lt in
      rw (e, participants_of) (rw (get_elem?-set c.handles h x _ e) refl)

  pub with_participants-length :
      (h : ℕ) (f : Participants → Participants) (c : CallController K)
      → length (with_participants h f c).handles ≡ length c.handles
  unfolding with_participants with_handle
  with_participants-length h f c = elim (Option-cases (get_elem? c.handles h)) [
    | inl e ↦ rw (e, with_handle) refl
    | inr (x, e) ↦ rw (e, with_handle) (length-set c.handles h _)
  ]

  -- The local streams are as they were.
  pub with_participants-streams :
      (h : ℕ) (f : Participants → Participants) (c : CallController K)
      → let d = with_participants h f c in
        (d.local_video ≡ c.local_video) × (d.local_audio ≡ c.local_audio)
  unfolding with_participants with_handle
  with_participants-streams h f c = elim (Option-cases (get_elem? c.handles h)) [
    | inl e ↦ rw (e, with_handle) (refl, refl)
    | inr (x, e) ↦ rw (e, with_handle) (refl, refl)
  ]

module _ {V : Type 0} (kit : Toolkit V) where
  pub put_first_lem :
      (p : ParticipateData) (m : Participants)
      → IsIndexed kit (kind kit) m
      → member p.user_id (ids kit (kind kit) m.items) ≡ false
      → let n = put_first kit p m in (n.items ≡ p ∷ m.items) × IsIndexed kit (kind kit) n
  unfolding kind read
  put_first_lem p m v new =
      let id = kit.to_int-of_int p.user_id in
      let (_, items, w) =
        insert_data_list-IsIndexed kit (kind kit) m 0 (p ∷ []) v (omega arith) (omega arith)
          (refl, tt) (rw id new, tt) in
      subst (λ (n : Participants). (n.items ≡ p ∷ m.items) × IsIndexed kit (kind kit) n)
        (sym (ap (λ q. q.0) (insert_data_lem kit (kind kit) m (pos 0) p))) (items, w)

  not_member :
      (m : Participants) (i : ℤ)
      → IsIndexed kit (kind kit) m
      → index_of kit i m ≡ none
      → member i (ids kit (kind kit) m.items) ≡ false
  not_member m i v e = elim (Bool-cases (member i (ids kit (kind kit) m.items))) [
    | inl here ↦ let (q, t, _, _, answer) = located kit (kind kit) m i v here in cc
    | inr nowhere ↦ nowhere
  ]

  is_member :
      (m : Participants) (i : ℤ) (r : ℕ)
      → IsIndexed kit (kind kit) m
      → index_of kit i m ≡ some r
      → member i (ids kit (kind kit) m.items) ≡ true
  is_member m i r v e = elim (Bool-cases (member i (ids kit (kind kit) m.items))) [
    | inl here ↦ here
    | inr nowhere ↦ let no = not_located kit (kind kit) m i v nowhere in cc
  ]

module _ {K V : Type 0} (kit : Toolkit V) where
  open_for-some :
      (b : Bool) (src : Option ℕ) (f : ℕ → Effect K)
      → (not b || is_set src) ≡ true
      → (fx : List (Effect K)) × (open_for kit b src f ≡ some fx)
  unfolding open_for
  open_for-some false src f e = ([], refl)
  open_for-some true (some s) f e = (f s ∷ [], refl)
  open_for-some true none f e = cc

  open_both-some :
      (frame_output : ℕ → ℕ) (current user : ℤ) (m : Participants) (c d : CallController K)
      → (d.local_video ≡ c.local_video) × (d.local_audio ≡ c.local_audio)
      → (not (bool_data kit (index_of kit current m) has_video_role m) || is_set c.local_video.src)
        ≡ true
      → (not (bool_data kit (index_of kit current m) has_audio_role m) || is_set c.local_audio.src)
        ≡ true
      → (fx : List (Effect K)) × (open_both kit frame_output current user m d ≡ some fx)
  unfolding open_both
  open_both-some frame_output current user m c d eqs video audio =
      let (fx, e) =
        open_for-some (bool_data kit (index_of kit current m) has_video_role m) d.local_video.src
          (λ s. local_video_opened user (frame_output s) d.local_video.config) (rw (eqs.0) video) in
      let (gx, g) =
        open_for-some (bool_data kit (index_of kit current m) has_audio_role m) d.local_audio.src
          (λ s. local_audio_opened user (frame_output s) d.local_audio.config) (rw (eqs.1) audio) in
      (fx ++ gx, rw (e, g, open_both) refl)

  let_in-new :
      (frame_output : ℕ → ℕ) (current : ℤ) (h : ℕ) (part : ParticipateData) (c : CallController K)
      (fx : List (Effect K))
      → h < length c.handles
      → index_of kit part.user_id (participants_of h c) ≡ none
      → open_both kit frame_output current part.user_id
          (put_first kit part (participants_of h c))
          (with_participants h (put_first kit part) c)
        ≡ some fx
      → let_in kit frame_output current h part c
        ≡ some (with_participants h (put_first kit part) c, fx)
  unfolding let_in
  let_in-new frame_output current h part c fx lt e o =
      rw (e, participants_of-with_participants h (put_first kit part) c lt, o, let_in) refl

  -- A user whom the server says to have joined is let in, where the local streams that the user's
  -- own flags say are on have a source: a known user changes nothing, a new one stands in the first
  -- row, and the index of the participants agrees with the rows.
  pub let_in-IsIndexed :
      (frame_output : ℕ → ℕ) (current : ℤ) (h : ℕ) (part : ParticipateData) (c : CallController K)
      → h < length c.handles
      → IsIndexed kit (kind kit) (participants_of h c)
      → let after = put_first kit part (participants_of h c) in
        let row = index_of kit current after in
        (not (bool_data kit row has_video_role after) || is_set c.local_video.src) ≡ true
        → (not (bool_data kit row has_audio_role after) || is_set c.local_audio.src) ≡ true
        → (d : CallController K) × (fx : List (Effect K)) × (let_in kit frame_output current h part
              c
            ≡ some (d, fx))
          × IsIndexed kit (kind kit) (participants_of h d)
          × ((participants_of h d).items ≡ (
              if member part.user_id (ids kit (kind kit) (participants_of h c).items)
              then (participants_of h c).items
              else part ∷ (participants_of h c).items))
  unfolding let_in
  let_in-IsIndexed frame_output current h part c lt v video audio =
      elim (Option-cases (index_of kit part.user_id (participants_of h c))) [
        | inl e ↦
            let f = put_first kit part in
            let d = with_participants h f c in
            let new = not_member kit (participants_of h c) part.user_id v e in
            let (items, w) = put_first_lem kit part (participants_of h c) v new in
            let (fx, o) =
              open_both-some frame_output current part.user_id (f (participants_of h c)) c d
                (with_participants-streams h f c) video audio in
            let now = participants_of-with_participants h f c lt in
            (
              d,
              fx,
              let_in-new frame_output current h part c fx lt e o,
              subst (λ n. IsIndexed kit (kind kit) n) (sym now) w,
              rw new (ap (λ (n : Participants). n.items) now ∙ items),
            )
        | inr (r, e) ↦
            let known = is_member kit (participants_of h c) part.user_id r v e in
            (c, [], rw (e, let_in) refl, v, rw known refl)
      ]
