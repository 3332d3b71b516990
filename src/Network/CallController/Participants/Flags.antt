-- ===== src/Network/CallController/Participants/Flags.antt =====
-- The switches of the media of a participant (lib/network/controllers/callcontroller.cpp).
use chat_up.Base.{
  get_elem?-set, Bool-cases, inl, inr, ℕ, ◌≡◌, refl, sym, ap, ◌∙◌, Bool, true, false, some, ℤ,
  int_eq, length, get_elem?, set,
}
use chat_up.Core.Toolkit.{Toolkit}
use chat_up.Core.Participate.{ParticipateData, has_audio_role, has_video_role, kind, edit, same}
use chat_up.Core.Participate.Switches.{edit-switches}
use chat_up.Network.CallController.Participants.{Participants, index_of}
use chat_up.Core.IdentifyingModel.Edits.{id_to_index-same, set-same}
use chat_up.Base.{length-set}
use chat_up.Network.CallController.Participants.{has_media, set_media, same_bool}
use chat_up.Network.CallController.Participants.Switched.{
  same_eq, read_video, read_audio, flag_lem, put_bool_lem,
}

module _ {V : Type 0} (kit : Toolkit V) where
  same_bool_lem : (b c : Bool) → same_bool kit b c ≡ same c b
  same_bool_lem true true = refl
  same_bool_lem true false = refl
  same_bool_lem false true = refl
  same_bool_lem false false = refl

  -- A model with the items of `m` but `u` in row `r`, and the same index.
  pub record At (m : Participants) (r : ℕ) (u : ParticipateData) (n : Participants) : Type 0 where
    pub items : n.items ≡ set m.items r u
    pub index : n.index ≡ m.index

  At-index_of :
      {m n : Participants} {r : ℕ} {u : ParticipateData} (current : ℤ)
      → At m r u n
      → index_of kit current n ≡ index_of kit current m
  At-index_of {m} {n} {r} {u} current a =
      id_to_index-same kit (kind kit) m n current a.index
        (ap length a.items ∙ length-set m.items r u)

  At-here :
      {m n : Participants} {r : ℕ} {t u : ParticipateData}
      → get_elem? m.items r ≡ some t
      → At m r u n
      → get_elem? n.items r ≡ some u
  At-here {m} {n} {r} {t} {u} e a = ap (λ q. get_elem? q r) a.items ∙ get_elem?-set m.items r t u e

  stays :
      (m : Participants) (r : ℕ) (t u : ParticipateData)
      → get_elem? m.items r ≡ some t
      → t ≡ u
      → At m r u m
  stays m r t u e q = record { items = set-same m.items r u (e ∙ ap some q); index = refl }

  pub set_media-video :
      (current : ℤ) (b : Bool) (m : Participants) (r : ℕ) (t : ParticipateData)
      → index_of kit current m ≡ some r
      → get_elem? m.items r ≡ some t
      → At m r (record t { has_video = b }) (set_media kit current has_video_role b m)
  unfolding set_media
  set_media-video current b m r t e at_row =
      let flag =
        ap (λ q. same_bool kit q b) (flag_lem kit m r t has_video_role at_row ∙ read_video kit t)
        ∙ same_bool_lem t.has_video b in
      elim (Bool-cases (same b t.has_video)) [
        | inl s ↦
            rw (e, set_media, flag, s)
              (stays m r t _ at_row
                (ap (λ q. record t { has_video = q }) (sym (same_eq kit b t.has_video s))))
        | inr s ↦
            let (items, index) = put_bool_lem kit m r t b has_video_role at_row refl in
            let changed : (edit kit t (kit.of_bool b) has_video_role).0
                ≡ record t { has_video = b } =
              rw ((edit-switches kit t b).1, s) refl in
            rw (e, set_media, flag, s)
              (record { items = items ∙ ap (set m.items r) changed; index = index })
      ]

  pub set_media-audio :
      (current : ℤ) (b : Bool) (m : Participants) (r : ℕ) (t : ParticipateData)
      → index_of kit current m ≡ some r
      → get_elem? m.items r ≡ some t
      → At m r (record t { has_audio = b }) (set_media kit current has_audio_role b m)
  unfolding set_media
  set_media-audio current b m r t e at_row =
      let flag =
        ap (λ q. same_bool kit q b) (flag_lem kit m r t has_audio_role at_row ∙ read_audio kit t)
        ∙ same_bool_lem t.has_audio b in
      elim (Bool-cases (same b t.has_audio)) [
        | inl s ↦
            rw (e, set_media, flag, s)
              (stays m r t _ at_row
                (ap (λ q. record t { has_audio = q }) (sym (same_eq kit b t.has_audio s))))
        | inr s ↦
            let (items, index) = put_bool_lem kit m r t b has_audio_role at_row refl in
            let changed : (edit kit t (kit.of_bool b) has_audio_role).0
                ≡ record t { has_audio = b } =
              ap (λ q. q.0) (edit-switches kit t b).0 in
            rw (e, set_media, flag, s)
              (record { items = items ∙ ap (set m.items r) changed; index = index })
      ]

  has_media-row :
      (current : ℤ) (m : Participants) (r : ℕ) (t : ParticipateData)
      → index_of kit current m ≡ some r
      → get_elem? m.items r ≡ some t
      → (has_media kit current has_video_role m ≡ t.has_video)
        × (has_media kit current has_audio_role m ≡ t.has_audio)
  unfolding has_media
  has_media-row current m r t e at_row = (
    rw (e, has_media) (flag_lem kit m r t has_video_role at_row ∙ read_video kit t),
    rw (e, has_media) (flag_lem kit m r t has_audio_role at_row ∙ read_audio kit t),
  )

  -- A participant's switch of one medium is what the participant then has of it, and the other medium
  -- is as it was.
  pub set_media-has_media :
      (current : ℤ) (b : Bool) (m : Participants) (r : ℕ) (t : ParticipateData)
      → index_of kit current m ≡ some r
      → get_elem? m.items r ≡ some t
      → let v = set_media kit current has_video_role b m in
        let a = set_media kit current has_audio_role b m in
        (has_media kit current has_video_role v ≡ b)
        × (has_media kit current has_audio_role v ≡ has_media kit current has_audio_role m)
        × (has_media kit current has_audio_role a ≡ b)
        × (has_media kit current has_video_role a ≡ has_media kit current has_video_role m)
  set_media-has_media current b m r t e at_row =
      let video = set_media-video current b m r t e at_row in
      let audio = set_media-audio current b m r t e at_row in
      let before = has_media-row current m r t e at_row in
      let v = has_media-row current _ r _ (At-index_of current video ∙ e) (At-here at_row video) in
      let a = has_media-row current _ r _ (At-index_of current audio ∙ e) (At-here at_row audio) in
      (v.0, v.1 ∙ sym before.1, a.1, a.0 ∙ sym before.0)
