-- ===== src/Core/Participate/Switches.antt =====
-- What the switches of video and audio do (lib/core/models/participatemodel.cpp).
use chat_up.Base.{◌≡◌, Bool, true, not, if◌then◌else◌, arith}
use chat_up.Core.Toolkit.{Toolkit}
use chat_up.Core.Participate.{ParticipateData, has_video_role, has_audio_role, same, edit}

module _ {V : Type 0} (kit : Toolkit V) where
  -- The audio of a participant is set to a value, and the result says whether it was another before;
  -- the video is set if it was another, and else the audio is set in its place.
  pub edit-switches :
      (p : ParticipateData) (b : Bool)
      → (edit kit p (kit.of_bool b) has_audio_role
          ≡ (record p { has_audio = b }, not (same b p.has_audio)))
        × (edit kit p (kit.of_bool b) has_video_role ≡ (
            if same b p.has_video
            then (record p { has_audio = b }, not (same b p.has_audio))
            else (record p { has_video = b }, true)))
  unfolding edit
  edit-switches p b = (
    ground (arith, kit.can_bool-of_bool b, kit.to_bool-of_bool b),
    ground (arith, kit.can_bool-of_bool b, kit.to_bool-of_bool b),
  )
