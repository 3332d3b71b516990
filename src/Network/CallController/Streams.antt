-- ===== src/Network/CallController/Streams.antt =====
-- lib/network/controllers/callcontroller.cpp: the local streams of a call, opened and closed, and the
-- connectors between streams and sinks. The sources, `rtc::Service` and the audio output are outside:
-- `frame_output` gives the pipe of a source. `openVideo` and `openAudio` are two functions each,
-- for what follows the opening of the source and for what follows the server's reply.
pub mod Sent
use chat_up.Base.{
  ℕ, true, false, Option, none, some, List, [], ◌∷◌, ◌++◌, map, ℤ, int_eq, ◌==◌, nat_beq,
  if◌then◌else◌,
}
use chat_up.Base.Map
use chat_up.Base.Map.{Map}
use chat_up.Core.Toolkit.{Toolkit}
use chat_up.Core.Participate.{has_audio_role, has_video_role}
use chat_up.Media.SinkConnector
use chat_up.Media.SinkConnector.{SinkConnector, connect_pipe, connect_sink}
use chat_up.Network.CallController.{
  CallController, StreamContext, Effect, src_closed, media_sent, local_video_opened,
  local_audio_opened, local_video_closed, local_audio_closed, has_audio_changed, has_video_changed,
  participants_of, with_participants, close_src,
}
use chat_up.Network.CallController.Participants.{others, set_media}

module _ {K : Type 0} where
  -- if (src && src != st) src->close()
  close_other : ℕ → Option ℕ → List (Effect K)
  close_other st none = []
  close_other st (some s) = if nat_beq s st then [] else src_closed s ∷ []

  -- The context without its source.
  closed : StreamContext K → StreamContext K
  closed x = record x { src = none }

module _ {K V : Type 0} (kit : Toolkit V) where
  -- openVideo(h, st), when the source `st` has opened with `config`
  pub opened_video : ℤ → ℕ → ℕ → K → CallController K → CallController K × List (Effect K)
  unfolding close_other
  opened_video current h st config c = (
    with_participants h (set_media kit current has_video_role true)
        (record c { local_video = record { src = some st; config = config } }),
    close_other st c.local_video.src ++ has_video_changed h ∷ media_sent (some true) none ∷ [],
  )

  pub opened_audio : ℤ → ℕ → ℕ → K → CallController K → CallController K × List (Effect K)
  unfolding close_other
  opened_audio current h st config c = (
    with_participants h (set_media kit current has_audio_role true)
        (record c { local_audio = record { src = some st; config = config } }),
    close_other st c.local_audio.src ++ has_audio_changed h ∷ media_sent none (some true) ∷ [],
  )

  -- openVideo(h, st), when the server has replied; the configuration is the one it opened with
  pub video_sent : (ℕ → ℕ) → ℤ → ℕ → K → CallController K → List (Effect K)
  video_sent frame_output current h config c = elim c.local_video.src [
    | none ↦ []
    | some s ↦
        map (λ i. local_video_opened i (frame_output s) config)
          (others kit current (participants_of h c))
  ]

  pub audio_sent : (ℕ → ℕ) → ℤ → ℕ → K → CallController K → List (Effect K)
  audio_sent frame_output current h config c = elim c.local_audio.src [
    | none ↦ []
    | some s ↦
        map (λ i. local_audio_opened i (frame_output s) config)
          (others kit current (participants_of h c))
  ]

  -- closeVideo(h)
  pub close_video : ℤ → ℕ → CallController K → CallController K × List (Effect K)
  unfolding closed
  close_video current h c =
      let d =
        with_participants h (set_media kit current has_video_role false)
          (record c { local_video = closed c.local_video }) in
      (
        d,
        close_src c.local_video.src
            ++ (map local_video_closed (others kit current (participants_of h d))
                ++ media_sent (some false) none ∷ []),
      )

  -- closeAudio(h)
  pub close_audio : ℤ → ℕ → CallController K → CallController K × List (Effect K)
  unfolding closed
  close_audio current h c =
      let d =
        with_participants h (set_media kit current has_audio_role false)
          (record c { local_audio = closed c.local_audio }) in
      (
        d,
        close_src c.local_audio.src
            ++ (map local_audio_closed (others kit current (participants_of h d))
                ++ has_audio_changed h ∷ media_sent none (some false) ∷ []),
      )

connector_of : ℤ → Map ℤ SinkConnector → SinkConnector
connector_of user m = elim (Map.lookup user m) [ none ↦ SinkConnector.init | some x ↦ x ]

module _ {K : Type 0} where
  -- The pipe that `connectVideoSink` connects, if any.
  pipe_for : (ℕ → ℕ) → (ℤ → Option ℕ) → ℤ → ℤ → CallController K → Option (Option ℕ)
  pipe_for frame_output remote_video current user c =
      if user == current
      then elim c.local_video.src [ none ↦ none | some s ↦ some (some (frame_output s)) ]
      else some (remote_video user)

  -- connectVideoSink(h, user, s), with what the two calls of `onDataChanged` answer
  pub connect_video_sink :
      (ℕ → ℕ)
      → (ℤ → Option ℕ)
      → ℕ
      → ℕ
      → ℤ
      → ℤ
      → Option ℕ
      → CallController K
      → Option (CallController K × List SinkConnector.Effect)
  unfolding connector_of pipe_for
  connect_video_sink frame_output remote_video first second current user s c =
      elim (connect_sink first s (connector_of user c.connectors)) [
        | none ↦ none
        | some (x, fx) ↦ elim (pipe_for frame_output remote_video current user c) [
          | none ↦ some (record c { connectors = Map.insert user x c.connectors }, fx)
          | some p ↦ elim (connect_pipe second p x) [
            | none ↦ none
            | some (y, gx) ↦
                some (record c { connectors = Map.insert user y c.connectors }, fx ++ gx)
          ]
        ]
      ]

-- connectAudioOutput(h, user, out): the device and the pipe that the output starts with
pub connect_audio_output : {D : Type 0} → List D → (ℤ → Option ℕ) → ℤ → Option (D × Option ℕ)
connect_audio_output [] remote_audio user = none
connect_audio_output (d ∷ ds) remote_audio user = some (d, remote_audio user)
