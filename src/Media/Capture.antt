-- ===== src/Media/Capture.antt =====
-- lib/media/camerainput.cpp and microphoneinput.cpp: the devices and the threads that read them. What
-- FFmpeg answers is an argument. The flag `active` is a list of answers for as many rounds as it is on.
pub mod Failed
mod Tests
use chat_up.Base.{
  ℕ, Bool, true, false, not, ◌||◌, Option, none, some, List, [], ◌∷◌, ◌++◌, if◌then◌else◌,
}
use chat_up.Media.DataPipe
use chat_up.Media.DataPipe.{
  DataPipe, Call, overflow, logic_error, held, try_hold_for_writing, unmap_writing,
}

pub record Device : Type 0 where
  pub active : Bool
  pub has_context : Bool
  pub has_thread : Bool

-- What FFmpeg answers to `open`: whether the input opens, its streams are found, and one has the medium.
-- Where it does not open, avformat_open_input frees the context that it was given.
pub record Answers : Type 0 where
  pub opens : Bool
  pub finds : Bool
  pub has_stream : Bool

abbrev pub new_device : Device
new_device = record { active = false; has_context = false; has_thread = false }

-- open() of either device, which is open already or not, with whether it gives a configuration. A
-- thread that is still joinable is assigned over, which is std::terminate, `none`.
open_device : Bool → Answers → Device → Option (Device × Bool)
open_device is_opened a d =
    if is_opened
    then some (d, false)
    else if not a.opens || not a.finds || not a.has_stream
    then some (record d { has_context = false }, false)
    else if d.has_thread
    then none
    else some (record { active = true; has_context = true; has_thread = true }, true)

-- isOpened() of the camera, and of the microphone, which is always false
pub open_camera : Answers → Device → Option (Device × Bool)
unfolding open_device
open_camera a d = open_device d.active a d

pub open_microphone : Answers → Device → Option (Device × Bool)
unfolding open_device
open_microphone a d = open_device false a d

-- close() of either device
pub close : Device → Device
close d = new_device

-- What one round of a thread comes to: another round, the end of the thread, or a std::logic_error.
pub data Round (P C : Type 0) : Type 0 where
  going ended : DataPipe P C → List (Call P C) → Round P C
  thrown : Round P C

module _ {P C : Type 0} where
  -- The round of Camera::threadFunc: after a read that fails the packet is unmapped twice.
  pub camera_round : Bool → DataPipe P C → Round P C
  camera_round is_read out = elim (try_hold_for_writing out) [
    | overflow ↦ ended out []
    | logic_error ↦ thrown
    | held t i q ↦
        if is_read
        then (let (r, calls) = unmap_writing i true q in going r calls)
        else let (r, calls) = unmap_writing i false q in
          let (s, more) = unmap_writing i true r in going s (calls ++ more)
  ]

  -- The round of Microphone::threadFunc, which ends the thread after a read that fails.
  pub microphone_round : Bool → DataPipe P C → Round P C
  microphone_round is_read out = elim (try_hold_for_writing out) [
    | overflow ↦ ended out []
    | logic_error ↦ thrown
    | held t i q ↦
        if is_read
        then (let (r, calls) = unmap_writing i true q in going r calls)
        else let (r, calls) = unmap_writing i false q in ended r calls
  ]

  pub after_calls : List (Call P C) → Round P C → Round P C
  after_calls cs (going p ds) = going p (cs ++ ds)
  after_calls cs (ended p ds) = ended p (cs ++ ds)
  after_calls cs thrown = thrown

  -- threadFunc, by its round
  pub thread_func : (Bool → DataPipe P C → Round P C) → List Bool → DataPipe P C → Round P C
  unfolding after_calls
  thread_func round [] out = ended out []
  thread_func round (a ∷ more) out = elim (round a out) [
    | going p cs ↦ after_calls cs (thread_func round more p)
    | ended p cs ↦ ended p cs
    | thrown ↦ thrown
  ]
