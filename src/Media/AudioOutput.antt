-- ===== src/Media/AudioOutput.antt =====
-- lib/media/audiooutput.cpp: a QAudioSink that plays the frames of a pipe. The pipe is a number, and
-- what the output does to it and to the sink is an effect. What Qt answers is an argument. `none` is a
-- null pointer that is read.
pub mod Played
mod Tests
use chat_up.Base.{ℕ, Bool, true, false, not, Option, none, some, List, [], ◌∷◌, ◌++◌, if◌then◌else◌}

pub record Output (D : Type 0) : Type 0 where
  pub has_io : Bool
  pub device : Option D
  pub has_sink : Bool
  pub is_started : Bool
  pub input : Option ℕ
  pub listener_index : Option ℕ

pub data Effect (D : Type 0) : Type 0 where
  listened : ℕ → Effect D
  listener_removed given_back : ℕ → ℕ → Effect D
  sink_made : Option D → ℕ → Effect D
  sink_deleted sink_started volume_set : Effect D
  written : ℕ → Effect D

-- A frame: its index, its format in Qt's terms, whether the device supports it, whether a sink that is
-- there is active, and whether `start` of the sink gives a device or a null pointer.
pub record Frame : Type 0 where
  pub index : ℕ
  pub format : ℕ
  pub is_supported : Bool
  pub is_active : Bool
  pub starts : Bool

module _ {D : Type 0} where
  abbrev pub init : Output D
  init = record {
    has_io = false;
    device = none;
    has_sink = false;
    is_started = false;
    input = none;
    listener_index = none;
  }

  remove_listener : Output D → Output D × List (Effect D)
  remove_listener o = elim o.listener_index [
    | none ↦ (o, [])
    | some i ↦ elim o.input [
      | none ↦ (o, [])
      | some p ↦ (record o { input = none; listener_index = none }, listener_removed p i ∷ [])
    ]
  ]

  pub delete_sink : Output D → List (Effect D)
  delete_sink o = if o.has_sink then sink_deleted ∷ [] else []

  -- close()
  pub close : Output D → Output D × List (Effect D)
  unfolding remove_listener delete_sink
  close o =
      if o.is_started
      then (let (r, fx) = remove_listener o in
          (record r { has_io = false; has_sink = false; is_started = false }, fx ++ delete_sink o))
      else (o, [])

  -- setVolume(other)
  pub set_volume : Output D → List (Effect D)
  set_volume o = if o.has_sink then volume_set ∷ [] else []

  -- The part of start behind findDevice; `index` is what `onDataChanged` answers.
  listen : D → ℕ → ℕ → Output D → Output D × List (Effect D)
  listen d p index o = (
    record o { device = some d; input = some p; listener_index = some index; is_started = true },
    listened p ∷ [],
  )

  -- start(devName, pipe), where findDevice answers `found`
  pub start : Option D → ℕ → ℕ → Output D → Output D × List (Effect D) × Bool
  unfolding close listen
  start found p index o =
      let (r, fx) = if o.is_started then close o else (o, []) in
      elim found [
        | none ↦ (r, fx, false)
        | some d ↦ let (s, gx) = listen d p index r in (s, fx ++ gx, true)
      ]

  -- The end of the listener, where there is a sink.
  play : ℕ → Bool → Frame → Output D → Option (Output D × List (Effect D))
  play p is_active f o =
      if not is_active
      then if f.starts
        then some (
          record o { has_io = true; has_sink = true },
          sink_started ∷ written f.index ∷ given_back p f.index ∷ [],
        )
        else none
      else if o.has_io
      then some (o, written f.index ∷ given_back p f.index ∷ [])
      else none

  before :
      List (Effect D) → Option (Output D × List (Effect D)) → Option (Output D × List (Effect D))
  before fx none = none
  before fx (some (o, gx)) = some (o, fx ++ gx)

  -- The listener. A sink that was just made is not active.
  pub on_frame : Frame → Output D → Option (Output D × List (Effect D))
  unfolding play before
  on_frame f o = elim o.input [
    | none ↦ none
    | some p ↦
        if o.has_sink
        then play p f.is_active f o
        else if f.is_supported
        then before (sink_made o.device f.format ∷ []) (play p false f o)
        else some (o, given_back p f.index ∷ [])
  ]

  -- Frames one after another.
  pub on_frames : List Frame → Output D → Option (Output D × List (Effect D))
  unfolding on_frame before
  on_frames [] o = some (o, [])
  on_frames (f ∷ fs) o = elim (on_frame f o) [
    | none ↦ none
    | some (r, fx) ↦ before fx (on_frames fs r)
  ]
