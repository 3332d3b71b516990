-- ===== src/Network/RtcService/Tests.antt =====
-- The theorems on the connections at a state with one user, to whom a video track is open
-- (lib/network/rtcservice.cpp).
use chat_up.Base.{
  ℕ, ◌≡◌, refl, true, false, none, some, [], ◌∷◌, ℤ, pos, int_eq, ◌==◌, ◌++◌, if◌then◌else◌,
}
use chat_up.Base.Map
use chat_up.Media.DataPipe.{
  DataPipe, held, try_hold_for_writing, acquire, get_free, take_free, unmap_writing, drain, publish,
  calls,
}
use chat_up.Network.RtcService.{
  audio, video, PeerContext, Sender, Service, output, get_peer_context, remote,
}
use chat_up.Network.RtcService.Remote.Frames.{lock-some}
use chat_up.Network.RtcService.Local.{write_packet}
use chat_up.Network.RtcService.Local.Sent.{
  Reached, nobody, next, sends, give_back, write_packet-sends,
}
use chat_up.Network.RtcService.Ends.{
  close_user_connection, close_track, close_local_video, close_local_audio,
}
use chat_up.Network.RtcService.Ends.Closed.{IsClosed, listeners_of, close_local-all}
use chat_up.Network.RtcService.Ends.Gone.{removed, close_user_connection-gone}

abbrev ann : Sender
ann = record { user = pos 7; peer = 0 }

abbrev ann_context : PeerContext ℕ
ann_context = record {
  pc = 0;
  audio_context = record {
    track = none;
    packets = 0 ∷ 0 ∷ [];
    packet_pipe = none;
    decoder = none;
    listener = none;
  };
  video_context = record {
    track = some 1;
    packets = 0 ∷ 0 ∷ [];
    packet_pipe = none;
    decoder = none;
    listener = some 1;
  };
}

abbrev raw_pipe : DataPipe ℕ Sender
raw_pipe = record {
  listeners = (1, ann) ∷ [];
  sem = 2;
  subpipes =
      record { is_free = true; ptr = 50; readings = 0 }
      ∷ record { is_free = true; ptr = 51; readings = 0 }
      ∷ [];
  remove_listener_queue = [];
  add_listener_queue = [];
}

abbrev raw_held : DataPipe ℕ Sender
raw_held = record raw_pipe {
  sem = 1;
  subpipes =
      record { is_free = false; ptr = 50; readings = 0 }
      ∷ record { is_free = true; ptr = 51; readings = 0 }
      ∷ [];
}

abbrev showing : Service ℕ
showing = record {
  peer_contexts = Map.insert (pos 7) ann_context Map.empty;
  video_encoder = some (some 20);
  packetizer = some (record { is_started = true; packetizer_output = raw_pipe });
  audio_encoder = some (record { input = none; output = raw_pipe });
  next = 2;
  raw_index = 1;
  packet_index = 0;
}

ann_there : get_peer_context (pos 7) showing ≡ some ann_context
unfolding get_peer_context
ann_there = Map.lookup-insert (pos 7) (pos 7) ann_context Map.empty

raw_holds : try_hold_for_writing raw_pipe ≡ held 50 0 raw_held
unfolding try_hold_for_writing acquire get_free take_free
raw_holds = refl

video_out : output video showing ≡ some raw_pipe
unfolding output
video_out = refl

audio_out : output audio showing ≡ some raw_pipe
unfolding output
audio_out = refl

ann-Reached : Reached video showing (unmap_writing 0 true raw_held).1 (some 1 ∷ [])
unfolding unmap_writing drain publish calls remote
ann-Reached =
    next _ ann_context 1 [] [] (lock-some ann ann_context showing ann_there refl) refl nobody

write_packet-sends_example :
    (u : Service ℕ) × (write_packet {K = ℕ} video showing
      ≡ some (u, sends (unmap_writing 0 true raw_held).1 (some 1 ∷ [])))
    × (u.peer_contexts ≡ showing.peer_contexts)
    × (output video u
        ≡ some (give_back (unmap_writing 0 true raw_held).1 (unmap_writing 0 true raw_held).0))
write_packet-sends_example =
    write_packet-sends video showing raw_pipe raw_held 50 0 (some 1 ∷ []) video_out raw_holds
      ann-Reached

close_local-all_example :
    ((t : Service ℕ) × (close_local_video (pos 8) showing ≡ some t)
      × IsClosed video (listeners_of video (Map.values showing.peer_contexts)) showing raw_pipe t)
    × ((t : Service ℕ) × (close_local_audio (pos 8) showing ≡ some t)
        × IsClosed audio (listeners_of audio (Map.values showing.peer_contexts)) showing raw_pipe t)
close_local-all_example = close_local-all (pos 8) showing raw_pipe raw_pipe video_out audio_out

close_user_connection-gone_example :
    (t : Service ℕ) × (close_user_connection {K = ℕ} (pos 7) showing
      ≡ some (t, close_track none ++ close_track (some 1)))
    × ((j : ℤ) → get_peer_context j t ≡ (if pos 7 == j then none else get_peer_context j showing))
    × (output video t ≡ some (removed (some 1) raw_pipe))
    × (output audio t ≡ some (removed none raw_pipe))
close_user_connection-gone_example =
    close_user_connection-gone (pos 7) showing ann_context raw_pipe raw_pipe ann_there video_out
      audio_out
