-- ===== src/Media/VideoEncoder/Tests.antt =====
-- The theorem on the packets of a video encoder that has written two packets and gets the frame 6, of
-- which one packet comes (lib/media/encoder.cpp).
use chat_up.Base.{◌≡◌, refl, true, some, String, [], ◌∷◌}
use chat_up.Media.DataPipe
use chat_up.Media.DataPipe.{
  DataPipe, try_hold_for_writing, acquire, get_free, take_free, unmap_writing, drain, publish,
  calls,
}
use chat_up.Media.VideoEncoder.{
  VideoEncoder, Encoded, on_frame, receive, written, read_frame, given_back,
}
use chat_up.Media.VideoEncoder.Stamps.{IsCounted, on_frame-IsCounted}

abbrev third : VideoEncoder String String
third = record {
  pts = 2;
  dts = 2;
  is_started = true;
  out = DataPipe.init ("a" ∷ "b" ∷ []);
  has_context = true;
  input = some 9;
  listener_index = some 1;
}

abbrev after_frame : Encoded String String
after_frame = record {
  encoder = record third { pts = 3; dts = 3 };
  effects = given_back 9 6 ∷ [];
  stamps = record { pts = 3; dts = 3 } ∷ [];
  calls = [];
}

one_packet : on_frame 6 true 1 third ≡ some after_frame
unfolding on_frame receive written read_frame try_hold_for_writing acquire get_free take_free
    unmap_writing drain publish calls DataPipe.init
one_packet = refl

on_frame-IsCounted_example : IsCounted 2 (given_back 9 6 ∷ []) after_frame
on_frame-IsCounted_example =
    on_frame-IsCounted 9 6 1 true third after_frame refl refl refl one_packet
