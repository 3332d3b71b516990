-- ===== src/Network/RtcService/Remote.antt =====
-- lib/network/rtcservice.cpp: the streams of the other participants. `objects` are the packets that
-- `createNullBufferPacketPipe` allocates. The outcome of a frame has the calls of the decoder that the
-- write makes.
pub mod Frames
use chat_up.Base.{
  ℕ, suc, Bool, true, false, Option, none, some, List, [], ◌∷◌, ◌++◌, ℤ, set, if◌then◌else◌,
}
use chat_up.Media.DataPipe
use chat_up.Media.DataPipe.{
  DataPipe, Call, overflow, logic_error, held, on_data_changed, try_hold_for_writing, unmap_writing,
}
use chat_up.Network.RtcService.{
  Medium, audio, video, RemoteContext, PeerContext, Sender, Service, remote, with_remote,
  get_peer_context, put_peer, lock, get_or_create,
}

value_or : ℕ → Option ℕ → ℕ
value_or d none = d
value_or d (some c) = c

module _ {B : Type 0} where
  -- flushRemoteVideo(id) and flushRemoteAudio(id)
  pub flush_remote : Medium → ℤ → Service B → Service B
  flush_remote m id s = elim (get_peer_context id s) [
    | none ↦ s
    | some p ↦
        put_peer id (with_remote m (λ x. record x { packet_pipe = none; decoder = none }) p) s
  ]

  -- decoder->start(packetPipe): the decoder listens; `none` is a null pipe
  start_decoder : ℕ → RemoteContext B → ℕ → Option (RemoteContext B × ℕ)
  start_decoder d x index = elim x.packet_pipe [
    | none ↦ none
    | some q ↦
        let (r, i) = on_data_changed d index q in
        some (record x { packet_pipe = some r; decoder = some d }, i)
  ]

  -- if (!packetPipe) packetPipe = createNullBufferPacketPipe()
  need_pipe : List ℕ → RemoteContext B → RemoteContext B
  need_pipe objects x = elim x.packet_pipe [
    | none ↦ record x { packet_pipe = some (DataPipe.init objects) }
    | some q ↦ x
  ]

  -- if (!decoder) { decoder.reset(new ...); decoder->start(packetPipe); }
  need_decoder : ℕ → RemoteContext B → ℕ → Option (RemoteContext B × ℕ)
  unfolding start_decoder
  need_decoder d x index = elim x.decoder [
    | none ↦ start_decoder d x index
    | some _ ↦ some (x, index)
  ]

  -- The pipe and the decoder of a context, made where they are not there.
  pub ready : List ℕ → Medium → ℤ → PeerContext B → Service B → Option (PeerContext B × Service B)
  ready objects m id p s =
      elim (need_decoder s.next (need_pipe objects (remote m p)) s.packet_index) [
        | none ↦ none
        | some (x, i) ↦
            let q = with_remote m (λ _. x) p in
            some (q, put_peer id q (record s { next = suc s.next; packet_index = i }))
      ]

  -- The decoder whose output `getRemoteVideo` and `getRemoteAudio` give.
  pub get_remote : List B → List ℕ → Medium → ℤ → Service B → Option (Option ℕ × Service B)
  get_remote blank objects m id s =
      let (p, t) = get_or_create blank id s in
      elim (ready objects m id p t) [ none ↦ none | some (q, u) ↦ some ((remote m q).decoder, u) ]

  -- getRemoteVideo(id)
  pub get_remote_video : List B → List ℕ → ℤ → Service B → Option (Option ℕ × Service B)
  unfolding get_remote
  get_remote_video blank objects = get_remote blank objects video

  -- getRemoteAudio(id)
  pub get_remote_audio : List B → List ℕ → ℤ → Service B → Option (Option ℕ × Service B)
  unfolding get_remote
  get_remote_audio blank objects = get_remote blank objects audio

  -- A frame that has come, stored in a packet: `filled` is what `fillPacket` answers, `full` what
  -- happens where the pipe has no permit.
  pub store :
      Option (RemoteContext B × List (Call ℕ ℕ))
      → Bool
      → B
      → RemoteContext B
      → Option (RemoteContext B × List (Call ℕ ℕ))
  store full filled bytes x = elim x.packet_pipe [
    | none ↦ none
    | some q ↦ elim (try_hold_for_writing q) [
      | overflow ↦ full
      | logic_error ↦ none
      | held t i r ↦
          let y = record x { packets = set x.packets i bytes; packet_pipe = some r } in
          let (w, calls) = unmap_writing i true r in
          if filled then some (record y { packet_pipe = some w }, calls) else some (y, [])
    ]
  ]

  stored :
      Medium
      → ℤ
      → PeerContext B
      → Service B
      → Option (RemoteContext B × List (Call ℕ ℕ))
      → Option (Service B × List (Call ℕ ℕ))
  stored m id p s none = none
  stored m id p s (some (x, calls)) = some (put_peer id (with_remote m (λ _. x) p) s, calls)

  -- The `onFrame` of a track that the other side has opened; both media return on an overflow.
  pub on_remote_frame :
      Medium → Sender → Bool → B → Service B → Option (Service B × List (Call ℕ ℕ))
  unfolding stored
  on_remote_frame m c filled bytes s = elim (lock c s) [
    | none ↦ some (s, [])
    | some p ↦ stored m c.user p s (store (some (remote m p, [])) filled bytes (remote m p))
  ]

  -- What the `onFrame` of a track that was opened here does on an overflow: for audio it goes on
  -- without the data.
  on_full : Medium → RemoteContext B → Option (RemoteContext B × List (Call ℕ ℕ))
  on_full video x = some (x, [])
  on_full audio x = none

  on_local_frame :
      List ℕ → Medium → Sender → Bool → B → Service B → Option (Service B × List (Call ℕ ℕ))
  unfolding stored on_full
  on_local_frame objects m c filled bytes s = elim (lock c s) [
    | none ↦ some (s, [])
    | some p ↦ elim (ready objects m c.user p s) [
      | none ↦ none
      | some (q, t) ↦ stored m c.user q t (store (on_full m (remote m q)) filled bytes (remote m q))
    ]
  ]

  -- The `onFrame` of the video track that `openLocalVideo` has made.
  pub on_video_frame : List ℕ → Sender → Bool → B → Service B → Option (Service B × List (Call ℕ ℕ))
  unfolding on_local_frame
  on_video_frame objects = on_local_frame objects video

  -- The `onFrame` of the audio track that `openLocalAudio` has made.
  pub on_audio_frame : List ℕ → Sender → Bool → B → Service B → Option (Service B × List (Call ℕ ℕ))
  unfolding on_local_frame
  on_audio_frame objects = on_local_frame objects audio

  -- The handler of `onTrack` for a video track; `none` is a context that is not there.
  pub on_video_track : List ℕ → ℕ → ℤ → Service B → Option (Service B)
  unfolding need_pipe
  on_video_track objects track id s = elim (get_peer_context id s) [
    | none ↦ none
    | some p ↦ some (
        put_peer id (with_remote video (λ x. need_pipe objects (record x { track = some track })) p)
          s)
  ]

  -- The decoder of an audio track is made where it is not there, and started with a new pipe.
  audio_ready : List ℕ → ℕ → RemoteContext B → ℕ → Option (RemoteContext B × ℕ)
  unfolding start_decoder value_or
  audio_ready objects d x index =
      let e = value_or d x.decoder in
      elim x.packet_pipe [
        | none ↦ start_decoder e (record x { packet_pipe = some (DataPipe.init objects) }) index
        | some q ↦ some (record x { decoder = some e }, index)
      ]

  -- The handler of `onTrack` for an audio track.
  pub on_audio_track : List ℕ → ℕ → ℤ → Service B → Option (Service B)
  unfolding audio_ready
  on_audio_track objects track id s = elim (get_peer_context id s) [
    | none ↦ none
    | some p ↦
        elim (audio_ready objects s.next (record p.audio_context { track = some track })
          s.packet_index) [
            | none ↦ none
            | some (x, i) ↦ some (
                put_peer id (record p { audio_context = x })
                  (record s { next = suc s.next; packet_index = i }))
          ]
  ]
