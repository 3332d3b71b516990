-- ===== src/Network/RtcService/Ends/Gone.antt =====
-- What is left after the connection with a user is closed (lib/network/rtcservice.cpp).
use chat_up.Base.{
  ℕ, ◌≡◌, refl, ap, ◌∙◌, Option, none, some, ◌++◌, ℤ, int_eq, ◌==◌, if◌then◌else◌, arith,
}
use chat_up.Base.Map
use chat_up.Base.Map.{Map}
use chat_up.Media.DataPipe.{DataPipe, remove_listener}
use chat_up.Network.RtcService.{
  Medium, audio, video, PeerContext, Sender, Service, remote, with_remote, output, set_output,
  unsubscribe, get_peer_context, put_peer,
}
use chat_up.Network.RtcService.Remote.{flush_remote}
use chat_up.Network.RtcService.Remote.Frames.{clear, flush_remote_lem, get_peer_context-put_peer}
use chat_up.Network.RtcService.Local.Sent.{set_output-peers, output-set_output}
use chat_up.Network.RtcService.Ends.{leave, close_track, destroy, close_user_connection}

abbrev other : Medium → Medium
other audio = video
other video = audio

-- A pipe that is told to remove a listener, where there is one.
abbrev pub removed : Option ℕ → DataPipe ℕ Sender → DataPipe ℕ Sender
removed none out = out
removed (some i) out = remove_listener i out

module _ {B : Type 0} where
  get-put :
      (id j : ℤ) (p : PeerContext B) (s : Service B)
      → get_peer_context j (put_peer id p s) ≡ (if id == j then some p else get_peer_context j s)
  unfolding get_peer_context put_peer
  get-put id j p s = Map.lookup-insert id j p s.peer_contexts

  get-erase :
      (id j : ℤ) (s : Service B)
      → get_peer_context j (record s { peer_contexts = Map.erase id s.peer_contexts })
        ≡ (if id == j then none else get_peer_context j s)
  unfolding get_peer_context
  get-erase id j s = Map.lookup-erase id j s.peer_contexts

  output-contexts :
      (m : Medium) (c : Map ℤ (PeerContext B)) (s : Service B)
      → output m (record s { peer_contexts = c }) ≡ output m s
  unfolding output
  output-contexts audio c s = refl
  output-contexts video c s = refl

  output-put_peer :
      (m : Medium) (id : ℤ) (p : PeerContext B) (s : Service B)
      → output m (put_peer id p s) ≡ output m s
  unfolding output put_peer
  output-put_peer audio id p s = refl
  output-put_peer video id p s = refl

  output-other :
      (m : Medium) (q : DataPipe ℕ Sender) (s : Service B)
      → output (other m) (set_output m q s) ≡ output (other m) s
  unfolding output set_output
  output-other audio q s =
      elim s.audio_encoder
        as (λ o.
          output video (set_output audio q (record s { audio_encoder = o })) ≡ output video s) [
            | none ↦ refl
            | some e ↦ refl
          ]
  output-other video q s =
      elim s.packetizer
        as (λ o. output audio (set_output video q (record s { packetizer = o })) ≡ output audio s) [
          | none ↦ refl
          | some e ↦ refl
        ]

  -- What `unsubscribe` leaves.
  record IsLeft (m : Medium) (l : Option ℕ) (s : Service B) (out : DataPipe ℕ Sender)
      (t : Service B) : Type 0 where
    here : output m t ≡ some (removed l out)
    other_output : output (other m) t ≡ output (other m) s
    contexts : t.peer_contexts ≡ s.peer_contexts

  unsubscribe-IsLeft :
      (m : Medium) (l : Option ℕ) (s : Service B) (out : DataPipe ℕ Sender)
      → output m s ≡ some out
      → (t : Service B) × (unsubscribe m l s ≡ some t) × IsLeft m l s out t
  unfolding unsubscribe
  unsubscribe-IsLeft m none s out o =
      (s, refl, record { here = o; other_output = refl; contexts = refl })
  unsubscribe-IsLeft m (some i) s out o =
      let q = remove_listener i out in
      (
        set_output m q s,
        rw (o, unsubscribe) refl,
        record {
          here = output-set_output m q out s o;
          other_output = output-other m q s;
          contexts = set_output-peers m q s;
        },
      )

  get-contexts :
      (j : ℤ) (s t : Service B)
      → t.peer_contexts ≡ s.peer_contexts
      → get_peer_context j t ≡ get_peer_context j s
  unfolding get_peer_context
  get-contexts j s t e = ap (Map.lookup j) e

  abbrev quiet : Medium → PeerContext B → PeerContext B
  quiet m p = with_remote m (λ x. record x { listener = none }) p

  leave-some :
      (m : Medium) (user : ℤ) (p : PeerContext B) (s : Service B) (out : DataPipe ℕ Sender)
      → output m s ≡ some out
      → (t : Service B) × (leave m user p s ≡ some (quiet m p, t))
        × (output m t ≡ some (removed (remote m p).listener out))
        × (output (other m) t ≡ output (other m) s)
        × ((j : ℤ)
            → get_peer_context j t ≡ (if user == j then some (quiet m p) else get_peer_context j s))
  unfolding leave
  leave-some m user p s out o =
      let (u, e, v) = unsubscribe-IsLeft m (remote m p).listener s out o in
      (
        put_peer user (quiet m p) u,
        rw (e, leave) refl,
        output-put_peer m user (quiet m p) u ∙ v.here,
        output-put_peer (other m) user (quiet m p) u ∙ v.other_output,
        λ j.
            get-put user j (quiet m p) u
            ∙ ap (λ o. if user == j then some (quiet m p) else o) (get-contexts j s u v.contexts),
      )

module _ {B K : Type 0} where
  -- A user whose connection is closed, where both local streams have an output: the context is gone
  -- and those of the others stay, the tracks of the user are closed, audio first, and each output is told
  -- to remove the listener that the context records for it, where it records one, and no other.
  pub close_user_connection-gone :
      (user : ℤ) (s : Service B) (p : PeerContext B) (v a : DataPipe ℕ Sender)
      → get_peer_context user s ≡ some p
      → output video s ≡ some v
      → output audio s ≡ some a
      → (t : Service B) × (close_user_connection {K = K} user s
          ≡ some (t, close_track p.audio_context.track ++ close_track p.video_context.track))
        × ((j : ℤ) → get_peer_context j t ≡ (if user == j then none else get_peer_context j s))
        × (output video t ≡ some (removed p.video_context.listener v))
        × (output audio t ≡ some (removed p.audio_context.listener a))
  unfolding close_user_connection destroy with_remote remote
  close_user_connection-gone user s p v a e ov oa =
      let p1 = clear audio p in
      let s1 = put_peer user p1 s in
      let flush1 = flush_remote_lem audio user s p e in
      let flush2 =
        ap (flush_remote video user) flush1
        ∙ flush_remote_lem video user s1 p1 (get_peer_context-put_peer user p1 s) in
      let p2 = clear video p1 in
      let s2 = put_peer user p2 s1 in
      let ov2 = output-put_peer video user p2 s1 ∙ output-put_peer video user p1 s ∙ ov in
      let oa2 = output-put_peer audio user p2 s1 ∙ output-put_peer audio user p1 s ∙ oa in
      let (s3, left_video, v3, a3, get3) = leave-some video user p2 s2 v ov2 in
      let (s4, left_audio, a4, v4, get4) = leave-some audio user (quiet video p2) s3 a (a3 ∙ oa2) in
      (
        record s4 { peer_contexts = Map.erase user s4.peer_contexts },
        rw
            (
              flush2,
              get_peer_context-put_peer user p2 s1,
              flush2,
              left_video,
              left_audio,
              close_user_connection,
            )
            refl,
        λ j.
            ground (
              arith,
              get-erase user j s4,
              get4 j,
              get3 j,
              get-put user j p2 s1,
              get-put user j p1 s,
            ),
        output-contexts video _ s4 ∙ v4 ∙ v3,
        output-contexts audio _ s4 ∙ a4,
      )
