-- ===== src/Network/RtcService/Ends.antt =====
-- lib/network/rtcservice.cpp: the ends of the local streams and of the connections.
pub mod Closed
pub mod Gone
use chat_up.Base.{
  ℕ, suc, Bool, true, false, Option, none, some, List, [], ◌∷◌, ◌++◌, map, ℤ, int_eq, nat_beq,
  if◌then◌else◌,
}
use chat_up.Base.Map
use chat_up.Base.Map.{Map}
use chat_up.Media.DataPipe
use chat_up.Media.DataPipe.{
  DataPipe, Call, overflow, logic_error, held, try_hold_for_writing, unmap_writing, unmap_reading,
}
use chat_up.Media.SinkConnector.{same}
use chat_up.Network.RtcService.{
  Medium, audio, video, PeerContext, Sender, Service, Effect, Packetizer, AudioEncoder,
  encoder_started, encoder_closed, packetizer_started, packetizer_stopped, track_added,
  local_description_set, track_closed, sent, remote, with_remote, get_peer_context, put_peer, lock,
  output, set_output, subscribe, unsubscribe, get_or_create,
}
use chat_up.Network.RtcService.Remote.{flush_remote}
use chat_up.Network.RtcService.Local.{Outcome}

module _ {K : Type 0} where
  pub close_track : Option ℕ → List (Effect K)
  close_track none = []
  close_track (some t) = track_closed t ∷ []

  -- What `closeAllConnections` does with an encoder or packetizer that is there.
  if_there : {A : Type 0} → Option A → Effect K → List (Effect K)
  if_there none f = []
  if_there (some a) f = f ∷ []

module _ {B : Type 0} where
  -- removeListener for the context's listener, which is forgotten
  leave : Medium → ℤ → PeerContext B → Service B → Option (PeerContext B × Service B)
  leave m user p s = elim (unsubscribe m (remote m p).listener s) [
    | none ↦ none
    | some t ↦
        let q = with_remote m (λ x. record x { listener = none }) p in some (q, put_peer user q t)
  ]

  unsubscribe_all : Medium → List (PeerContext B) → Service B → Option (Service B)
  unsubscribe_all m [] s = some s
  unsubscribe_all m (p ∷ ps) s = elim (unsubscribe m (remote m p).listener s) [
    | none ↦ none
    | some t ↦ unsubscribe_all m ps t
  ]

  -- closeLocalAudio(user): the user is not read
  pub close_local_audio : ℤ → Service B → Option (Service B)
  unfolding unsubscribe_all
  close_local_audio user s = unsubscribe_all audio (Map.values s.peer_contexts) s

  -- closeLocalVideo(user)
  pub close_local_video : ℤ → Service B → Option (Service B)
  unfolding unsubscribe_all
  close_local_video user s = unsubscribe_all video (Map.values s.peer_contexts) s

module _ {B K : Type 0} where
  -- ~PeerContext()
  destroy : PeerContext B → List (Effect K)
  unfolding close_track
  destroy p = close_track p.audio_context.track ++ close_track p.video_context.track

  -- closeUserConnection(user)
  pub close_user_connection : ℤ → Service B → Outcome B K
  unfolding leave destroy
  close_user_connection user s =
      let flushed = flush_remote video user (flush_remote audio user s) in
      elim (get_peer_context user flushed) [
        | none ↦ some (flushed, [])
        | some p ↦ elim (leave video user p flushed) [
          | none ↦ none
          | some (q, t) ↦ elim (leave audio user q t) [
            | none ↦ none
            | some (r, u) ↦
                some (record u { peer_contexts = Map.erase user u.peer_contexts }, destroy r)
          ]
        ]
      ]

  destroy_all : List (PeerContext B) → List (Effect K)
  unfolding destroy
  destroy_all [] = []
  destroy_all (p ∷ ps) = destroy p ++ destroy_all ps

  -- closeAllConnections()
  pub close_all_connections : Service B → Service B × List (Effect K)
  unfolding destroy_all if_there
  close_all_connections s = (
    record s {
      video_encoder = none;
      packetizer = none;
      audio_encoder = none;
      peer_contexts = Map.empty;
    },
    if_there s.video_encoder (encoder_closed video)
        ++ (if_there s.packetizer packetizer_stopped
            ++ (if_there s.audio_encoder (encoder_closed audio)
                ++ destroy_all (Map.values s.peer_contexts))),
  )
