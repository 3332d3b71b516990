-- ===== src/Network/CallController/Streams/Sent.antt =====
-- For whom the local streams are opened and closed (lib/network/controllers/callcontroller.cpp).
use chat_up.Base.{ℕ, ◌<◌, ◌≡◌, ap, ◌∙◌, Bool, true, false, none, some, map, ℤ, get_elem?, length}
use chat_up.Core.Toolkit.{Toolkit}
use chat_up.Core.Participate.{ParticipateData, kind, has_video_role, has_audio_role}
use chat_up.Core.IdentifyingModel.{ids}
use chat_up.Network.CallController.{
  CallController, StreamContext, local_video_opened, local_audio_opened, participants_of,
  with_participants,
}
use chat_up.Network.CallController.Participants.{set_media, has_media, index_of}
use chat_up.Network.CallController.Participants.Others.{except, others_lem}
use chat_up.Network.CallController.Participants.Members.{
  participants_of-with_participants, with_participants-streams,
}
use chat_up.Network.CallController.Participants.Flags.{set_media-has_media}
use chat_up.Network.CallController.Streams.{
  video_sent, audio_sent, close_video, opened_video, closed,
}

module _ {K V : Type 0} (kit : Toolkit V) where
  -- Once the server has replied, an open source is opened, with the configuration that it opened
  -- with, for the participants other than the user and for no other, in their order.
  pub sent-others :
      (frame_output : ℕ → ℕ) (current : ℤ) (h s a : ℕ) (v_config a_config : K)
      (c : CallController K)
      → c.local_video.src ≡ some s
      → c.local_audio.src ≡ some a
      → let rest = except current (ids kit (kind kit) (participants_of h c).items) in
        (video_sent kit frame_output current h v_config c
          ≡ map (λ i. local_video_opened i (frame_output s) v_config) rest)
        × (audio_sent kit frame_output current h a_config c
            ≡ map (λ i. local_audio_opened i (frame_output a) a_config) rest)
  unfolding video_sent audio_sent participants_of
  sent-others frame_output current h s a v_config a_config c video audio =
      let same = others_lem kit current (participants_of h c) in
      (
        rw (video, video_sent)
            (ap (map (λ i. local_video_opened i (frame_output s) v_config)) same),
        rw (audio, audio_sent)
            (ap (map (λ i. local_audio_opened i (frame_output a) a_config)) same),
      )

  -- The media and the video stream of the user, after a switch of the video.
  switched :
      (current : ℤ) (b : Bool) (h : ℕ) (x : StreamContext K) (c : CallController K) (r : ℕ)
      (t : ParticipateData)
      → h < length c.handles
      → index_of kit current (participants_of h c) ≡ some r
      → get_elem? (participants_of h c).items r ≡ some t
      → let d =
          with_participants h
            (set_media kit current has_video_role b)
            (record c { local_video = x }) in
        (d.local_video ≡ x)
        × (has_media kit current has_video_role (participants_of h d) ≡ b)
        × (has_media kit current has_audio_role (participants_of h d)
            ≡ has_media kit current has_audio_role (participants_of h c))
  unfolding participants_of
  switched current b h x c r t lt e at_row =
      let f = set_media kit current has_video_role b in
      let d = record c { local_video = x } in
      let now = participants_of-with_participants h f d lt in
      let (v, a, _, _) = set_media-has_media kit current b (participants_of h c) r t e at_row in
      (
        (with_participants-streams h f d).0,
        ap (has_media kit current has_video_role) now ∙ v,
        ap (has_media kit current has_audio_role) now ∙ a,
      )

  -- A participant who opens the video has it on and the source is the one that opened; who closes it
  -- then has it off and no source is left; the audio flag stays in both.
  pub opened_video-close_video :
      (current : ℤ) (h st : ℕ) (config : K) (c : CallController K) (r : ℕ) (t : ParticipateData)
      → h < length c.handles
      → index_of kit current (participants_of h c) ≡ some r
      → get_elem? (participants_of h c).items r ≡ some t
      → let d = (opened_video kit current h st config c).0 in
        let e = (close_video kit current h c).0 in
        (d.local_video ≡ record { src = some st; config = config })
        × (e.local_video ≡ record { src = none; config = c.local_video.config })
        × (has_media kit current has_video_role (participants_of h d) ≡ true)
        × (has_media kit current has_audio_role (participants_of h d)
            ≡ has_media kit current has_audio_role (participants_of h c))
        × (has_media kit current has_video_role (participants_of h e) ≡ false)
        × (has_media kit current has_audio_role (participants_of h e)
            ≡ has_media kit current has_audio_role (participants_of h c))
  unfolding opened_video close_video closed
  opened_video-close_video current h st config c r t lt e at_row =
      let (on, v, a) =
        switched current true h (record { src = some st; config = config }) c r t lt e at_row in
      let (off, w, b) = switched current false h (closed c.local_video) c r t lt e at_row in
      (on, off, v, a, w, b)
