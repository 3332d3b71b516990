-- ===== src/Network/RtcService.antt =====
-- lib/network/rtcservice.cpp: the connections with the other participants, one context for each user,
-- and the local encoders. Connections, tracks, decoders and packets are numbers; `pc` also says which
-- context a weak pointer was made of. What libdatachannel and FFmpeg do is an effect, what they answer
-- an argument. An encoder's settings are values of `K`, bytes of a packet values of `B`. `none` reads a
-- null pointer, or is the `std::logic_error` of a pipe.
pub mod Remote
pub mod Local
pub mod Ends
mod Tests
use chat_up.Base.{
  ℕ, suc, ◌+◌, Bool, true, false, Option, none, some, List, [], ◌∷◌, ◌++◌, ℤ, pos, ◌==◌, int_eq,
  nat_beq, if◌then◌else◌,
}
use chat_up.Base.Map
use chat_up.Base.Map.{Map}
use chat_up.Media.DataPipe.{DataPipe, on_data_changed, remove_listener}

-- rtc::Data::invalidID
abbrev invalid_id : ℤ
invalid_id = pos 0

pub data Medium : Type 0 where
  audio video : Medium

-- RemoteAudioContext and RemoteVideoContext; a listener of the packet pipe is a decoder
pub record RemoteContext (B : Type 0) : Type 0 where
  pub track : Option ℕ
  pub packets : List B
  pub packet_pipe : Option (DataPipe ℕ ℕ)
  pub decoder : Option ℕ
  pub listener : Option ℕ

pub record PeerContext (B : Type 0) : Type 0 where
  pub pc : ℕ
  pub audio_context : RemoteContext B
  pub video_context : RemoteContext B

-- What the handler of an outgoing packet captures: the user and a weak pointer to the context.
pub record Sender : Type 0 where
  pub user : ℤ
  pub peer : ℕ

pub record Packetizer : Type 0 where
  pub is_started : Bool
  pub packetizer_output : DataPipe ℕ Sender

pub record AudioEncoder : Type 0 where
  pub input : Option ℕ
  pub output : DataPipe ℕ Sender

-- `video_encoder` has the encoder's input. The two indices are the static counters of listeners, of
-- the pipes of raw data and of those of packets.
pub record Service (B : Type 0) : Type 0 where
  pub peer_contexts : Map ℤ (PeerContext B)
  pub video_encoder : Option (Option ℕ)
  pub packetizer : Option Packetizer
  pub audio_encoder : Option AudioEncoder
  pub next : ℕ
  pub raw_index : ℕ
  pub packet_index : ℕ

pub data Effect (K : Type 0) : Type 0 where
  encoder_started : Medium → ℕ → K → Effect K
  encoder_closed : Medium → Effect K
  packetizer_started packetizer_stopped : Effect K
  track_added : Medium → ℕ → ℕ → Effect K
  local_description_set : ℕ → Effect K
  remote_description_set remote_candidate_added : ℕ → Effect K
  track_closed : ℕ → Effect K
  sent : ℕ → ℕ → Effect K

module _ {B : Type 0} where
  pub remote : Medium → PeerContext B → RemoteContext B
  remote audio p = p.audio_context
  remote video p = p.video_context

  pub with_remote : Medium → (RemoteContext B → RemoteContext B) → PeerContext B → PeerContext B
  with_remote audio f p = record p { audio_context = f p.audio_context }
  with_remote video f p = record p { video_context = f p.video_context }

  -- getPeerContext(id)
  pub get_peer_context : ℤ → Service B → Option (PeerContext B)
  get_peer_context id s = Map.lookup id s.peer_contexts

  pub put_peer : ℤ → PeerContext B → Service B → Service B
  put_peer id p s = record s { peer_contexts = Map.insert id p s.peer_contexts }

  -- wCtx.lock()
  pub lock : Sender → Service B → Option (PeerContext B)
  lock c s = elim (get_peer_context c.user s) [
    | none ↦ none
    | some p ↦ if nat_beq p.pc c.peer then some p else none
  ]

  -- The pipe whose listeners send the packets of a medium.
  pub output : Medium → Service B → Option (DataPipe ℕ Sender)
  output audio s = elim s.audio_encoder [ none ↦ none | some e ↦ some e.output ]
  output video s = elim s.packetizer [ none ↦ none | some z ↦ some z.packetizer_output ]

  pub set_output : Medium → DataPipe ℕ Sender → Service B → Service B
  set_output audio q s = elim s.audio_encoder [
    | none ↦ s
    | some e ↦ record s { audio_encoder = some (record e { output = q }) }
  ]
  set_output video q s = elim s.packetizer [
    | none ↦ s
    | some z ↦ record s { packetizer = some (record z { packetizer_output = q }) }
  ]

  listener_index : Medium → Service B → ℕ
  listener_index audio s = s.packet_index
  listener_index video s = s.raw_index

  set_listener_index : Medium → ℕ → Service B → Service B
  set_listener_index audio i s = record s { packet_index = i }
  set_listener_index video i s = record s { raw_index = i }

  -- listener = output()->onDataChanged(handler)
  pub subscribe : Medium → ℤ → PeerContext B → Service B → Option (Service B)
  subscribe m user p s = elim (output m s) [
    | none ↦ none
    | some out ↦
        let (q, i) =
          on_data_changed (record { user = user; peer = p.pc }) (listener_index m s) out in
        some (
          put_peer user (with_remote m (λ x. record x { listener = some i }) p)
            (set_listener_index m i (set_output m q s)))
  ]

  -- output()->removeListener(listener.value()), where there is one
  pub unsubscribe : Medium → Option ℕ → Service B → Option (Service B)
  unsubscribe m none s = some s
  unsubscribe m (some i) s = elim (output m s) [
    | none ↦ none
    | some out ↦ some (set_output m (remove_listener i out) s)
  ]

module _ {B : Type 0} (blank : List B) where
  -- PeerContext(), where `blank` is an array of empty vectors
  pub new_context : ℕ → PeerContext B
  new_context pc = record {
    pc = pc;
    audio_context = record {
      track = none;
      packets = blank;
      packet_pipe = none;
      decoder = none;
      listener = none;
    };
    video_context = record {
      track = none;
      packets = blank;
      packet_pipe = none;
      decoder = none;
      listener = none;
    };
  }

  -- createPeerContext(id), with the context
  pub create_peer_context : ℤ → Service B → PeerContext B × Service B
  unfolding new_context
  create_peer_context id s = (
    new_context s.next,
    record s {
      peer_contexts = Map.emplace id (new_context s.next) s.peer_contexts;
      next = suc s.next;
    },
  )

  -- getOrCreatePeerContext(id)
  pub get_or_create : ℤ → Service B → PeerContext B × Service B
  get_or_create id s = elim (get_peer_context id s) [
    | none ↦ create_peer_context id s
    | some p ↦ (p, s)
  ]

  -- The handlers of `Api::Description` and `Api::Candidate`.
  pub on_description : {K : Type 0} → ℤ → Service B → Service B × List (Effect K)
  on_description id s =
      let (p, t) = get_or_create id s in
      if id == invalid_id then (s, []) else (t, remote_description_set p.pc ∷ [])

  pub on_candidate : {K : Type 0} → ℤ → Service B → Service B × List (Effect K)
  on_candidate id s = let (p, t) = get_or_create id s in (t, remote_candidate_added p.pc ∷ [])
