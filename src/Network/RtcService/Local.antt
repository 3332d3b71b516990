-- ===== src/Network/RtcService/Local.antt =====
-- lib/network/rtcservice.cpp: the local streams, which the encoders write and the listeners of their
-- outputs send to the other participants, and the ends of the connections.
pub mod Sent
use chat_up.Base.{
  ℕ, suc, Bool, true, false, Option, none, some, List, [], ◌∷◌, ◌++◌, map, ℤ, int_eq, nat_beq,
  if◌then◌else◌,
}
use chat_up.Base.Map
use chat_up.Base.Map.{Map}
use chat_up.Media.DataPipe
use chat_up.Media.DataPipe.{
  DataPipe, Call, overflow, logic_error, held, try_hold_for_writing, unmap_writing, unmap_reading,
}
use chat_up.Media.SinkConnector.{same}
use chat_up.Network.RtcService.{
  Medium, audio, video, PeerContext, Sender, Service, Effect, Packetizer, AudioEncoder,
  encoder_started, encoder_closed, packetizer_started, packetizer_stopped, track_added,
  local_description_set, track_closed, sent, remote, with_remote, get_peer_context, put_peer, lock,
  output, set_output, subscribe, unsubscribe, get_or_create,
}
use chat_up.Network.RtcService.Remote.{flush_remote}

-- A state, with what is done outside on the way to it; `none` as in the parent module.
abbrev pub Outcome : Type 0 → Type 0 → Type 0
Outcome B K = Option (Service B × List (Effect K))

value_or : {A : Type 0} → A → Option A → A
value_or a none = a
value_or a (some b) = b

module _ {K : Type 0} where
  -- if (encoder->input() != input) encoder->start(input, config); `opens` is what `avcodec_open2`
  -- answers, where the input stays the old one on a failure
  start_encoder : Medium → ℕ → K → Bool → Option ℕ → Option ℕ × List (Effect K)
  start_encoder m input config opens old =
      if same old (some input)
      then (old, [])
      else (if opens then some input else old, encoder_started m input config ∷ [])

  -- The packetizer of `openLocalVideo`, started; `header` is what `avformat_write_header` answers.
  start_packetizer : Bool → Packetizer → Packetizer × List (Effect K)
  start_packetizer header z =
      if z.is_started then (z, []) else (record z { is_started = header }, packetizer_started ∷ [])

module _ {B : Type 0} where
  -- The `onOpen` of a track that was opened here.
  pub on_open : Medium → Sender → Service B → Option (Service B)
  on_open m c s = elim (lock c s) [ none ↦ some s | some p ↦ subscribe m c.user p s ]

module _ {B K : Type 0} where
  -- The first part of `openLocalVideo`; `raw` are the buffers of a new packetizer's output.
  pub video_ready : List ℕ → ℕ → K → Bool → Bool → Service B → Service B × List (Effect K)
  unfolding start_encoder start_packetizer value_or
  video_ready raw input config opens header s =
      let (now, fx) = start_encoder video input config opens (value_or none s.video_encoder) in
      let (z, gx) = start_packetizer header (
        value_or (record { is_started = false; packetizer_output = DataPipe.init raw })
          s.packetizer) in
      (record s { video_encoder = some now; packetizer = some z }, fx ++ gx)

  -- The first part of `openLocalAudio`; `packets` are the buffers of a new encoder's output.
  pub audio_ready : List ℕ → ℕ → K → Bool → Service B → Service B × List (Effect K)
  unfolding start_encoder value_or
  audio_ready packets input config opens s =
      let e = value_or (record { input = none; output = DataPipe.init packets }) s.audio_encoder in
      let (now, fx) = start_encoder audio input config opens e.input in
      (record s { audio_encoder = some (record e { input = now }) }, fx)

  -- The last part of `openLocalVideo` and `openLocalAudio`: a new track, which subscribes when it
  -- opens, or a subscription at once.
  pub open_track : Medium → ℤ → PeerContext B → Service B → Outcome B K
  open_track m user p s = elim (remote m p).track [
    | none ↦ some (
      put_peer user (with_remote m (λ x. record x { track = some s.next }) p)
          (record s { next = suc s.next }),
      track_added m p.pc s.next ∷ local_description_set p.pc ∷ [],
    )
    | some t ↦ elim (subscribe m user p s) [ none ↦ none | some u ↦ some (u, []) ]
  ]

  after : List (Effect K) → Outcome B K → Outcome B K
  after fx none = none
  after fx (some (s, gx)) = some (s, fx ++ gx)

  -- openLocalVideo(user, input, config)
  pub open_local_video : List B → List ℕ → ℤ → ℕ → K → Bool → Bool → Service B → Outcome B K
  unfolding after
  open_local_video blank raw user input config opens header s =
      let (p, t) = get_or_create blank user s in
      let (u, fx) = video_ready raw input config opens header t in
      after fx (open_track video user p u)

  -- openLocalAudio(user, input, config)
  pub open_local_audio : List B → List ℕ → ℤ → ℕ → K → Bool → Service B → Outcome B K
  unfolding after
  open_local_audio blank packets user input config opens s =
      let (p, t) = get_or_create blank user s in
      let (u, fx) = audio_ready packets input config opens t in after fx (open_track audio user p u)

  -- The handler of a packet that goes out: it is sent to the user, if the context is still there, and
  -- the buffer is given back. An exception of `send` is logged.
  pub send_packet : Medium → Sender → ℕ → Service B → Outcome B K
  send_packet m c index s = elim (output m s) [
    | none ↦ none
    | some out ↦
        let given_back = set_output m (unmap_reading index out) s in
        elim (lock c s) [
          | none ↦ some (given_back, [])
          | some p ↦ elim (remote m p).track [
            | none ↦ none
            | some t ↦ some (given_back, sent t index ∷ [])
          ]
        ]
  ]

  -- The loop of `unmapWriting` over the listeners.
  pub send_all : Medium → List (Call ℕ Sender) → Service B → Outcome B K
  unfolding after
  send_all m [] s = some (s, [])
  send_all m (c ∷ cs) s = elim (send_packet m c.callback c.index s) [
    | none ↦ none
    | some (t, fx) ↦ after fx (send_all m cs t)
  ]

  -- A packet written to the output: `write_packaged` for video, the loop of the encoder for audio.
  pub write_packet : Medium → Service B → Outcome B K
  write_packet m s = elim (output m s) [
    | none ↦ none
    | some out ↦ elim (try_hold_for_writing out) [
      | overflow ↦ some (s, [])
      | logic_error ↦ none
      | held t i q ↦ let (r, calls) = unmap_writing i true q in send_all m calls (set_output m r s)
    ]
  ]
