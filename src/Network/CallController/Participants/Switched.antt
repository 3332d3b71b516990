-- ===== src/Network/CallController/Participants/Switched.antt =====
-- The media flags of a participant (lib/network/controllers/callcontroller.cpp).
use chat_up.Base.{
  get_elem?-set, set-set, Bool-cases, inl, inr, ℕ, ◌<◌, ◌≡◌, refl, sym, ap, ◌∙◌, Bool, true, false,
  not, ◌&&◌, some, [], ◌∷◌, ◌++◌, int_eq, nat_beq, length, get_elem?, set, if◌then◌else◌,
}
use chat_up.Core.Toolkit.{Toolkit}
use chat_up.Core.Participate.{
  ParticipateData, user_role, has_audio_role, has_video_role, kind, edit, read, same,
}
use chat_up.Core.Participate.Switches.{edit-switches}
use chat_up.Core.IdentifyingModel.Edits.{set_data_row, data_role_lem}
use chat_up.Network.CallController.{CallController, participants_of}
use chat_up.Network.CallController.Participants.{Participants, put_bool, bool_data, index_of}
use chat_up.Network.CallController.{MediaUpdate, remote_video_flushed, remote_audio_flushed}
use chat_up.Network.CallController.Participants.{flush, switch_media}
use chat_up.Network.CallController.Participants.Members.{participants_of-with_participants}

module _ {V : Type 0} (kit : Toolkit V) where
  pub put_bool_lem :
      (m : Participants) (r : ℕ) (t : ParticipateData) (b : Bool) (role : ℕ)
      → get_elem? m.items r ≡ some t
      → nat_beq role user_role ≡ false
      → let n = put_bool kit (some r) b role m in
        (n.items ≡ set m.items r (edit kit t (kit.of_bool b) role).0) × (n.index ≡ m.index)
  unfolding kind
  put_bool_lem m r t b role e other =
      set_data_row kit (kind kit) m r t (kit.of_bool b) role e (kit.is_valid-of_bool b) other

  pub same_eq : (b c : Bool) → same b c ≡ true → b ≡ c
  same_eq true c e = sym e
  same_eq false true e = cc
  same_eq false false e = refl

  edit_both :
      (t : ParticipateData) (v a : Bool)
      → (edit kit (edit kit t (kit.of_bool v) has_video_role).0 (kit.of_bool a) has_audio_role).0
        ≡ record t { has_video = v; has_audio = a }
  edit_both t v a = elim (Bool-cases (same v t.has_video)) [
    | inl e ↦
        let first : (edit kit t (kit.of_bool v) has_video_role).0 ≡ record t { has_audio = v } =
          rw ((edit-switches kit t v).1, e) refl in
        ap (λ u. (edit kit u (kit.of_bool a) has_audio_role).0) first
        ∙ ap (λ q. q.0) (edit-switches kit (record t { has_audio = v }) a).0
        ∙ ap (λ b. record t { has_video = b; has_audio = a }) (sym (same_eq v t.has_video e))
    | inr e ↦
        let first : (edit kit t (kit.of_bool v) has_video_role).0 ≡ record t { has_video = v } =
          rw ((edit-switches kit t v).1, e) refl in
        ap (λ u. (edit kit u (kit.of_bool a) has_audio_role).0) first
        ∙ ap (λ q. q.0) (edit-switches kit (record t { has_video = v }) a).0
  ]

  -- Both flags put in turn.
  put_both :
      (m : Participants) (r : ℕ) (t : ParticipateData) (v a : Bool)
      → get_elem? m.items r ≡ some t
      → let n = put_bool kit (some r) a has_audio_role (put_bool kit (some r) v has_video_role m) in
        (n.items ≡ set m.items r (record t { has_video = v; has_audio = a })) × (n.index ≡ m.index)
  put_both m r t v a e =
      let (items, index) = put_bool_lem m r t v has_video_role e refl in
      let u = (edit kit t (kit.of_bool v) has_video_role).0 in
      let n = put_bool kit (some r) v has_video_role m in
      let here : get_elem? n.items r ≡ some u =
        ap (λ q. get_elem? q r) items ∙ get_elem?-set m.items r t u e in
      let (items2, index2) = put_bool_lem n r u a has_audio_role here refl in
      (
        items2
            ∙ ap (λ q. set q r (edit kit u (kit.of_bool a) has_audio_role).0) items
            ∙ set-set m.items r u _
            ∙ ap (set m.items r) (edit_both t v a),
        index2 ∙ index,
      )

  pub read_video : (t : ParticipateData) → kit.to_bool (read kit t has_video_role) ≡ t.has_video
  unfolding read
  read_video t = kit.to_bool-of_bool t.has_video

  pub read_audio : (t : ParticipateData) → kit.to_bool (read kit t has_audio_role) ≡ t.has_audio
  unfolding read
  read_audio t = kit.to_bool-of_bool t.has_audio

  pub flag_lem :
      (m : Participants) (r : ℕ) (t : ParticipateData) (role : ℕ)
      → get_elem? m.items r ≡ some t
      → bool_data kit (some r) role m ≡ kit.to_bool (read kit t role)
  unfolding kind
  flag_lem m r t role e = ap (λ q. kit.to_bool q) (data_role_lem kit (kind kit) m r t role e)

module _ {K V : Type 0} (kit : Toolkit V) where
  -- When the server tells which media of a known participant are on, both flags in that row are set
  -- to what it tells, all else in the rows and the index stays, and each remote stream that was on
  -- and is off now, and no other, is flushed.
  pub switch_media-sets :
      (h : ℕ) (upd : MediaUpdate) (c : CallController K) (r : ℕ) (t : ParticipateData)
      → h < length c.handles
      → index_of kit upd.user_id (participants_of h c) ≡ some r
      → get_elem? (participants_of h c).items r ≡ some t
      → let (d, fx) = switch_media kit h upd c in
        ((participants_of h d).items
          ≡ set
              (participants_of h c).items
              r
              (record t { has_video = upd.video; has_audio = upd.audio }))
        × ((participants_of h d).index ≡ (participants_of h c).index)
        × (fx ≡ (
            (if t.has_video && not upd.video then remote_video_flushed upd.user_id ∷ [] else [])
            ++ (if t.has_audio && not upd.audio
                then remote_audio_flushed upd.user_id ∷ []
                else [])))
  unfolding switch_media flush
  switch_media-sets h upd c r t lt e at_row =
      let m = participants_of h c in
      let (items, index) = put_both kit m r t upd.video upd.audio at_row in
      let now =
        participants_of-with_participants h
          (λ n.
            put_bool kit (some r) upd.audio has_audio_role
              (put_bool kit (some r) upd.video has_video_role n))
          c lt in
      let video = flag_lem kit m r t has_video_role at_row ∙ read_video kit t in
      let audio = flag_lem kit m r t has_audio_role at_row ∙ read_audio kit t in
      rw (e, switch_media)
        (
          ap (λ (n : Participants). n.items) now ∙ items,
          ap (λ (n : Participants). n.index) now ∙ index,
          rw (video, audio) refl,
        )
