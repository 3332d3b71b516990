-- ===== src/Media/AudioOutput/Tests.antt =====
-- The audio output (lib/media/audiooutput.cpp) with three frames.
use chat_up.Base.{◌≡◌, refl, true, false, none, some, List, [], ◌∷◌, String}
use chat_up.Media.AudioOutput.{
  Output, Effect, listener_removed, sink_deleted, volume_set, Frame, init, start, close, set_volume,
  on_frame, on_frames, remove_listener, delete_sink, play, before, listen,
}
use chat_up.Media.AudioOutput.Played.{returns, start-close}

abbrev unsupported : Frame
unsupported = record {
  index = 4;
  format = 8;
  is_supported = false;
  is_active = false;
  starts = true;
}

abbrev first : Frame
first = record { index = 2; format = 1; is_supported = true; is_active = false; starts = true }

abbrev later : Frame
later = record { index = 3; format = 1; is_supported = true; is_active = true; starts = true }

start-close_example :
    (r : Output String) × (fx : List (Effect String)) × (on_frames
        (unsupported ∷ first ∷ later ∷ [])
        (start (some "speaker") 9 5 init).0
      ≡ some (r, fx))
    × (returns fx ≡ (9, 4) ∷ (9, 2) ∷ (9, 3) ∷ [])
    × ((close r).1 ≡ listener_removed 9 5 ∷ delete_sink r)
    × (on_frame later (close r).0 ≡ none)
start-close_example =
    start-close 9 5 "speaker" (unsupported ∷ first ∷ later ∷ []) later init refl refl
      (refl, (refl, (refl, tt)))

abbrev playing : Output String
playing = record {
  has_io = true;
  device = some "speaker";
  has_sink = true;
  is_started = true;
  input = some 9;
  listener_index = some 5;
}

-- A device that is not found leaves a started output closed.
start-unknown : start none 7 6 playing ≡ (
  record playing {
    has_io = false;
    has_sink = false;
    is_started = false;
    input = none;
    listener_index = none;
  },
  listener_removed 9 5 ∷ sink_deleted ∷ [],
  false,
)
unfolding start close remove_listener delete_sink
start-unknown = refl

set_volume-playing : (set_volume playing ≡ volume_set ∷ []) × (set_volume {D = String} init ≡ [])
unfolding set_volume
set_volume-playing = (refl, refl)

abbrev quiet_output : Output String
quiet_output = init

-- A sink whose start gives no device is written to all the same.
on_frame-unstarted :
    on_frame (record first { starts = false }) (start (some "speaker") 9 5 quiet_output).0 ≡ none
unfolding on_frame play before start close listen remove_listener delete_sink
on_frame-unstarted = refl
