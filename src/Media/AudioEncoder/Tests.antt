-- ===== src/Media/AudioEncoder/Tests.antt =====
-- The theorems on frames of the audio encoder (lib/media/encoder.cpp), at an encoder for chunks of four
-- samples.
use chat_up.Base.{
  ℕ, ◌≡◌, refl, true, false, some, String, [], ◌∷◌, arith, get_elem?, if◌then◌else◌, ltb,
}
use chat_up.Media.DataPipe
use chat_up.Media.DataPipe.{
  DataPipe, SubPipe, try_hold_for_writing, acquire, get_free, take_free, unmap_writing, drain,
  publish, calls,
}
use chat_up.Media.VideoEncoder.{given_back}
use chat_up.Media.AudioEncoder.{
  AudioEncoder, Answer, Encoded, Ending, finished, broken_off, on_frame, rounds, take_round,
  after_chunk, send_chunk, receive, after_calls, give_frame, check_listed, required_format,
}
use chat_up.Media.AudioEncoder.Samples.{Chunked, on_frame-Chunked}
use chat_up.Media.AudioEncoder.Failures.{give_backs, on_frame-frees}

abbrev running : AudioEncoder String String
running = record {
  pts = 7;
  dts = 7;
  is_started = true;
  out = DataPipe.init ("a" ∷ "b" ∷ []);
  context = some 4;
  has_swr = true;
  input = some 9;
  listener_index = some 1;
}

abbrev taken : ℕ → Answer
taken k = record { is_sent = true; packets = 1; is_converted = true }

abbrev refused : ℕ → Answer
refused k = record { is_sent = false; packets = 0; is_converted = false }

-- Ten samples go in chunks of four, four and two.
ten_samples :
    on_frame 9 3 10 taken running
    ≡ some (
        finished (record {
          encoder = record running { pts = 10; dts = 10 };
          effects = given_back 9 3 ∷ [];
          asked = 4 ∷ 4 ∷ 2 ∷ [];
          calls = [];
        }))
unfolding on_frame rounds take_round after_chunk send_chunk receive after_calls give_frame
    try_hold_for_writing acquire get_free take_free unmap_writing drain publish calls DataPipe.init
ten_samples = refl

-- Of a frame of one chunk nothing is sent.
four_samples :
    on_frame 9 3 4 taken running
    ≡ some (
        finished
          (record { encoder = running; effects = given_back 9 3 ∷ []; asked = []; calls = [] }))
unfolding on_frame rounds give_frame
four_samples = refl

second_format : required_format (8 ∷ 3 ∷ []) 3 ≡ some 3
unfolding required_format check_listed
second_format = refl

on_frame-Chunked_example :
    (r : Ending String String) × (on_frame 9 3 10 taken running ≡ some r)
    × Chunked 4 (if ltb 4 10 then 10 else 0) r
on_frame-Chunked_example = on_frame-Chunked 9 3 4 10 taken (omega arith) running refl refl

abbrev frames : DataPipe String String
frames = record {
  listeners = (1, "encoder") ∷ (2, "preview") ∷ [];
  sem = 0;
  subpipes = record { is_free = false; ptr = "frame"; readings = 2 } ∷ [];
  remove_listener_queue = [];
  add_listener_queue = [];
}

on_frame-frees_example :
    (r : Encoded String String) × (on_frame 9 0 10 refused running ≡ some (broken_off r))
    × (get_elem? (give_backs r.effects frames).subpipes 0
        ≡ some (record { is_free = true; ptr = "frame"; readings = 0 }))
on_frame-frees_example =
    on_frame-frees 9 0 4 10 0 refused running "frame" frames (omega arith) refl refl refl refl
