-- ===== src/Media/Capture/Tests.antt =====
-- The threads of the devices (lib/media/camerainput.cpp, microphoneinput.cpp) on a pipe of one buffer.
use chat_up.Base.{ℕ, ◌+◌, ◌≡◌, refl, true, false, List, [], ◌∷◌, replicate, some, none}
use chat_up.Media.DataPipe.{SubPipe, take_free, try_hold_for_writing, acquire, get_free}
use chat_up.Media.DataPipe.Quiet.{quiet}
use chat_up.Media.Capture.{
  Answers, Device, new_device, open_device, open_camera, open_microphone, close, ended, thrown,
  thread_func, camera_round, microphone_round,
}
use chat_up.Media.Capture.Failed.{thread_func-permits}

abbrev one_buffer : List (SubPipe ℕ)
one_buffer = record { is_free = true; ptr = 5; readings = 0 } ∷ []

abbrev one_taken : List (SubPipe ℕ)
one_taken = record { is_free = false; ptr = 5; readings = 0 } ∷ []

one_buffer-take_free : take_free one_buffer ≡ some (5, 0, one_taken)
unfolding take_free
one_buffer-take_free = refl

thread_func-permits_example :
    (thread_func {C = ℕ} camera_round (replicate 3 false) (quiet 1 one_buffer)
      ≡ ended (quiet (3 + 1) one_buffer) [])
    × (thread_func {C = ℕ} microphone_round (false ∷ true ∷ []) (quiet 1 one_buffer)
        ≡ ended (quiet 1 one_buffer) [])
thread_func-permits_example =
    thread_func-permits 3 0 0 5 one_buffer one_taken (true ∷ []) one_buffer-take_free

abbrev found : Answers
found = record { opens = true; finds = true; has_stream = true }

abbrev opened : Device
opened = record { active = true; has_context = true; has_thread = true }

-- The second open of the camera is refused; that of the microphone assigns over its thread.
open-twice :
    (open_camera found opened ≡ some (opened, false)) × (open_microphone found opened ≡ none)
unfolding open_camera open_microphone open_device
open-twice = (refl, refl)

open-close : (open_microphone found new_device ≡ some (opened, true)) × (close opened ≡ new_device)
unfolding open_microphone open_device close
open-close = (refl, refl)

-- A permit without a free buffer, as there can be after the thread above: the hold throws.
one_taken-thrown : camera_round {C = ℕ} true (quiet 1 one_taken) ≡ thrown
unfolding camera_round try_hold_for_writing acquire get_free take_free
one_taken-thrown = refl
