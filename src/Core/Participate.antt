-- ===== src/Core/Participate.antt =====
-- lib/core/data.h and lib/core/models/participatemodel.cpp: who takes part in a call, with which
-- media, and how the participate model reads and edits it by role.
pub mod Switches
use chat_up.Base.{
  ℕ, nat_beq, leb, Bool, true, false, not, ◌&&◌, ℤ, pos, int_eq, ◌==◌, if◌then◌else◌,
}
use chat_up.Core.Toolkit.{Toolkit}
use chat_up.Core.IdentifyingModel.{ItemType}

-- Model::Roles
abbrev pub user_role : ℕ
user_role = 0

abbrev pub has_video_role : ℕ
has_video_role = 1

abbrev pub has_audio_role : ℕ
has_audio_role = 2

pub record ParticipateData : Type 0 where
  pub user_id : ℤ
  pub room_id : ℤ
  pub has_audio : Bool
  pub has_video : Bool

abbrev pub new_participate : ParticipateData
new_participate = record { user_id = pos 0; room_id = pos 0; has_audio = false; has_video = false }

abbrev pub same : Bool → Bool → Bool
same true b = b
same false b = not b

module _ {V : Type 0} (kit : Toolkit V) where
  unfoldable pub read : ParticipateData → ℕ → V
  read p role =
      if nat_beq role user_role
      then kit.of_int p.user_id
      else if nat_beq role has_video_role
      then kit.of_bool p.has_video
      else if nat_beq role has_audio_role
      then kit.of_bool p.has_audio
      else kit.invalid

  -- Model::edit; a case that does not change anything falls through to the next one
  unfoldable pub edit : ParticipateData → V → ℕ → ParticipateData × Bool
  edit p v role =
      if leb role user_role && kit.can_int v && not (kit.to_int v == p.user_id)
      then (record p { user_id = kit.to_int v }, true)
      else if leb role has_video_role && kit.can_bool v && not (same (kit.to_bool v) p.has_video)
      then (record p { has_video = kit.to_bool v }, true)
      else if leb role has_audio_role && kit.can_bool v && not (same (kit.to_bool v) p.has_audio)
      then (record p { has_audio = kit.to_bool v }, true)
      else (p, false)

  unfoldable pub kind : ItemType ParticipateData V
  unfolding read edit
  kind = record { read = read; edit = edit; create = new_participate }
