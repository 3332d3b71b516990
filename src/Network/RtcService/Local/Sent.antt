-- ===== src/Network/RtcService/Local/Sent.antt =====
-- To whom a packet of a local stream goes (lib/network/rtcservice.cpp).
use chat_up.Base.{ℕ, ◌≡◌, refl, ap, ◌∙◌, Option, none, some, List, [], ◌∷◌, true}
use chat_up.Media.DataPipe.{
  DataPipe, Call, held, try_hold_for_writing, unmap_writing, unmap_reading,
}
use chat_up.Network.RtcService.{
  Medium, audio, video, PeerContext, Sender, Service, Effect, sent, remote, lock, output,
  set_output, get_peer_context, AudioEncoder, Packetizer,
}
use chat_up.Network.RtcService.Local.{send_packet, send_all, write_packet, after}

module _ {B : Type 0} where
  pub set_output-peers :
      (m : Medium) (q : DataPipe ℕ Sender) (s : Service B)
      → (set_output m q s).peer_contexts ≡ s.peer_contexts
  unfolding set_output
  set_output-peers audio q s =
      elim s.audio_encoder
        as (λ o.
          (set_output audio q (record s { audio_encoder = o })).peer_contexts ≡ s.peer_contexts) [
            | none ↦ refl
            | some e ↦ refl
          ]
  set_output-peers video q s =
      elim s.packetizer
        as (λ o.
          (set_output video q (record s { packetizer = o })).peer_contexts ≡ s.peer_contexts) [
            | none ↦ refl
            | some e ↦ refl
          ]

  pub output-set_output :
      (m : Medium) (q out : DataPipe ℕ Sender) (s : Service B)
      → output m s ≡ some out
      → output m (set_output m q s) ≡ some q
  unfolding set_output output
  output-set_output audio q out s e = go s.audio_encoder e
    where
      go :
          (o : Option AudioEncoder)
          → output audio (record s { audio_encoder = o }) ≡ some out
          → output audio (set_output audio q (record s { audio_encoder = o })) ≡ some q
      go none h = cc
      go (some x) h = refl
  output-set_output video q out s e = go s.packetizer e
    where
      go :
          (o : Option Packetizer)
          → output video (record s { packetizer = o }) ≡ some out
          → output video (set_output video q (record s { packetizer = o })) ≡ some q
      go none h = cc
      go (some x) h = refl

  lock-peers :
      (c : Sender) (s t : Service B) → s.peer_contexts ≡ t.peer_contexts → lock c s ≡ lock c t
  unfolding lock get_peer_context
  lock-peers c s t e = ap (λ p. lock c (record s { peer_contexts = p })) e

  -- For each caller its track, where its context is still there, and `none` where that is gone.
  pub data Reached (m : Medium) (s : Service B)
      : List (Call ℕ Sender) → List (Option ℕ) → Type 0 where
    nobody : Reached m s [] []
    next :
        (c : Call ℕ Sender) (p : PeerContext B) (t : ℕ) (cs : List (Call ℕ Sender))
        (ts : List (Option ℕ))
        → lock c.callback s ≡ some p
        → (remote m p).track ≡ some t
        → Reached m s cs ts
        → Reached m s (c ∷ cs) (some t ∷ ts)
    left :
        (c : Call ℕ Sender) (cs : List (Call ℕ Sender)) (ts : List (Option ℕ))
        → lock c.callback s ≡ none
        → Reached m s cs ts
        → Reached m s (c ∷ cs) (none ∷ ts)

-- Each track gets the packet of its caller.
abbrev pub sends : {K : Type 0} → List (Call ℕ Sender) → List (Option ℕ) → List (Effect K)
sends [] ts = []
sends (c ∷ cs) [] = []
sends (c ∷ cs) (some t ∷ ts) = sent t c.index ∷ sends cs ts
sends (c ∷ cs) (none ∷ ts) = sends cs ts

-- Each caller gives its buffer back.
abbrev pub give_back : List (Call ℕ Sender) → DataPipe ℕ Sender → DataPipe ℕ Sender
give_back [] out = out
give_back (c ∷ cs) out = give_back cs (unmap_reading c.index out)

module _ {B K : Type 0} where
  send_packet-sent :
      (m : Medium) (c : Call ℕ Sender) (s : Service B) (out : DataPipe ℕ Sender) (p : PeerContext B)
      (t : ℕ)
      → output m s ≡ some out
      → lock c.callback s ≡ some p
      → (remote m p).track ≡ some t
      → send_packet {K = K} m c.callback c.index s
        ≡ some (set_output m (unmap_reading c.index out) s, sent t c.index ∷ [])
  unfolding send_packet
  send_packet-sent m c s out p t o l e = rw (o, send_packet) (rw l (rw e refl))

  send_packet-left :
      (m : Medium) (c : Call ℕ Sender) (s : Service B) (out : DataPipe ℕ Sender)
      → output m s ≡ some out
      → lock c.callback s ≡ none
      → send_packet {K = K} m c.callback c.index s
        ≡ some (set_output m (unmap_reading c.index out) s, [])
  unfolding send_packet
  send_packet-left m c s out o l = rw (o, send_packet) (rw l refl)

  send_all-sends :
      (m : Medium) (s0 : Service B) (cs : List (Call ℕ Sender)) (ts : List (Option ℕ))
      (s : Service B) (out : DataPipe ℕ Sender)
      → Reached m s0 cs ts
      → s.peer_contexts ≡ s0.peer_contexts
      → output m s ≡ some out
      → (u : Service B) × (send_all {K = K} m cs s ≡ some (u, sends cs ts))
        × (u.peer_contexts ≡ s0.peer_contexts)
        × (output m u ≡ some (give_back cs out))
  unfolding send_all after
  send_all-sends m s0 [] [] s out nobody same o = (s, refl, same, o)
  send_all-sends m s0 (c ∷ cs) (some t ∷ ts) s out (next _ p _ _ _ l e rest) same o =
      let q = unmap_reading c.index out in
      let s1 = set_output m q s in
      let (u, all, peers, given) =
        send_all-sends m s0 cs ts s1 q rest (set_output-peers m q s ∙ same)
          (output-set_output m q out s o) in
      (
        u,
        rw (send_packet-sent m c s out p t o (lock-peers c.callback s s0 same ∙ l) e, send_all)
            (rw all refl),
        peers,
        given,
      )
  send_all-sends m s0 (c ∷ cs) (none ∷ ts) s out (left _ _ _ l rest) same o =
      let q = unmap_reading c.index out in
      let s1 = set_output m q s in
      let (u, all, peers, given) =
        send_all-sends m s0 cs ts s1 q rest (set_output-peers m q s ∙ same)
          (output-set_output m q out s o) in
      (
        u,
        rw (send_packet-left m c s out o (lock-peers c.callback s s0 same ∙ l), send_all)
            (rw all refl),
        peers,
        given,
      )
  send_all-sends m s0 [] (t ∷ ts) s out h same o = elim h [ ]
  send_all-sends m s0 (c ∷ cs) [] s out h same o = elim h [ ]

  -- A packet that gets a buffer is sent to the track of each listener of the output whose context is
  -- there, in the listeners' order and each time once, and to nobody for the others; every listener, also
  -- one whose context is gone, gives the buffer back once, and the contexts stay.
  pub write_packet-sends :
      (m : Medium) (s : Service B) (out q : DataPipe ℕ Sender) (x i : ℕ) (ts : List (Option ℕ))
      → output m s ≡ some out
      → try_hold_for_writing out ≡ held x i q
      → Reached m s (unmap_writing i true q).1 ts
      → let (r, calls) = unmap_writing i true q in
        (u : Service B) × (write_packet {K = K} m s ≡ some (u, sends calls ts))
        × (u.peer_contexts ≡ s.peer_contexts)
        × (output m u ≡ some (give_back calls r))
  unfolding write_packet
  write_packet-sends m s out q x i ts o h reached =
      let (r, calls) = unmap_writing i true q in
      let (u, all, peers, given) =
        send_all-sends m s calls ts (set_output m r s) r reached (set_output-peers m r s)
          (output-set_output m r out s o) in
      (u, rw (o, write_packet) (rw h all), peers, given)
