-- ===== src/Media/RtpPacketizer/Tests.antt =====
-- lib/media/rtppacketizer.cpp: a packet of two chunks, for which the output has buffers.
use chat_up.Base.{◌≡◌, refl, true, some, String, [], ◌∷◌}
use chat_up.Media.DataPipe
use chat_up.Media.DataPipe.{
  DataPipe, try_hold_for_writing, acquire, get_free, take_free, unmap_writing, drain, publish,
  calls,
}
use chat_up.Media.RtpPacketizer.{
  RtpPacketizer, on_packet, write_frame, write_packaged, after, given_back, filled,
}

abbrev started : RtpPacketizer String String
started = record {
  out = DataPipe.init ("a" ∷ "b" ∷ []);
  input = some 9;
  is_started = true;
  listener_index = some 1;
}

two_chunks :
    on_packet 9 true true 4 (1000 ∷ 200 ∷ []) started
    ≡ some (record {
      packetizer = started;
      effects = filled "a" 1000 ∷ filled "a" 200 ∷ given_back 9 4 ∷ [];
      calls = [];
    })
unfolding on_packet write_frame write_packaged after try_hold_for_writing acquire get_free take_free
    unmap_writing drain publish calls DataPipe.init
two_chunks = refl
