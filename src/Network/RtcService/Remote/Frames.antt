-- ===== src/Network/RtcService/Remote/Frames.antt =====
-- Frames of the other participants (lib/network/rtcservice.cpp).
use chat_up.Base.{
  ℕ, suc, ◌≡◌, refl, sym, ap, subst, ◌∙◌, Bool, true, Option, none, some, List, ℤ, int_eq, beq_self,
  nat_beq, Option-cases, inl, inr, arith,
}
use chat_up.Base.Map
use chat_up.Media.DataPipe
use chat_up.Media.DataPipe.{DataPipe, Call, on_data_changed}
use chat_up.Network.RtcService.{
  Medium, audio, video, RemoteContext, PeerContext, Sender, Service, remote, with_remote,
  get_peer_context, put_peer, lock, get_or_create,
}
use chat_up.Network.RtcService.Remote.{
  flush_remote, store, on_remote_frame, need_pipe, need_decoder, start_decoder, ready, get_remote,
}

module _ {B : Type 0} where
  remote-with_remote :
      (m : Medium) (f : RemoteContext B → RemoteContext B) (p : PeerContext B)
      → remote m (with_remote m f p) ≡ f (remote m p)
  unfolding remote with_remote
  remote-with_remote audio f p = refl
  remote-with_remote video f p = refl

  pc-with_remote :
      (m : Medium) (f : RemoteContext B → RemoteContext B) (p : PeerContext B)
      → (with_remote m f p).pc ≡ p.pc
  unfolding with_remote
  pc-with_remote audio f p = refl
  pc-with_remote video f p = refl

  pub get_peer_context-put_peer :
      (id : ℤ) (p : PeerContext B) (s : Service B) → get_peer_context id (put_peer id p s) ≡ some p
  unfolding get_peer_context put_peer
  get_peer_context-put_peer id p s =
      Map.lookup-insert id id p s.peer_contexts ∙ rw (beq_self id) refl

  -- A stream whose pipe and decoder are dropped.
  abbrev pub clear : Medium → PeerContext B → PeerContext B
  clear m p = with_remote m (λ x. record x { packet_pipe = none; decoder = none }) p

  pub flush_remote_lem :
      (m : Medium) (id : ℤ) (s : Service B) (p : PeerContext B)
      → get_peer_context id s ≡ some p
      → flush_remote m id s ≡ put_peer id (clear m p) s
  unfolding flush_remote
  flush_remote_lem m id s p e = rw (e, flush_remote) refl

  pub lock-some :
      (c : Sender) (p : PeerContext B) (s : Service B)
      → get_peer_context c.user s ≡ some p
      → p.pc ≡ c.peer
      → lock c s ≡ some p
  unfolding lock
  lock-some c p s e same =
      let live : nat_beq p.pc c.peer ≡ true = ground arith in rw (e, lock) (rw live refl)

  store-no_pipe :
      (full : Option (RemoteContext B × List (Call ℕ ℕ))) (filled : Bool) (bytes : B)
      (x : RemoteContext B)
      → x.packet_pipe ≡ none
      → store full filled bytes x ≡ none
  unfolding store
  store-no_pipe full filled bytes x e = rw (e, store) refl

  -- A stream of the other side that is flushed has no pipe, and the `onFrame` of the track that the
  -- other side has opened does not make one: the next frame reads a null pointer.
  pub flush_remote-on_remote_frame :
      (m : Medium) (c : Sender) (filled : Bool) (bytes : B) (s : Service B) (p : PeerContext B)
      → get_peer_context c.user s ≡ some p
      → p.pc ≡ c.peer
      → on_remote_frame m c filled bytes (flush_remote m c.user s) ≡ none
  unfolding on_remote_frame flush_remote
  flush_remote-on_remote_frame m c filled bytes s p e same =
      let clear = λ (x : RemoteContext B). record x { packet_pipe = none; decoder = none } in
      let q = with_remote m clear p in
      let found =
        lock-some c q (put_peer c.user q s) (get_peer_context-put_peer c.user q s)
          (pc-with_remote m clear p ∙ same) in
      let empty = ap (λ (x : RemoteContext B). x.packet_pipe) (remote-with_remote m clear p) in
      rw (e, flush_remote)
        (rw (found, on_remote_frame) (rw (store-no_pipe _ filled bytes (remote m q) empty) refl))

  -- A context that has its pipe and its decoder.
  record IsReady (x : RemoteContext B) (d : ℕ) : Type 0 where
    pipe : DataPipe ℕ ℕ
    has_pipe : x.packet_pipe ≡ some pipe
    has_decoder : x.decoder ≡ some d

  need_pipe-some :
      (objects : List ℕ) (x : RemoteContext B)
      → (q : DataPipe ℕ ℕ) × ((need_pipe objects x).packet_pipe ≡ some q)
  unfolding need_pipe
  need_pipe-some objects x = elim (Option-cases x.packet_pipe) [
    | inl e ↦ (DataPipe.init objects, rw (e, need_pipe) refl)
    | inr (q, e) ↦ (q, rw (e, need_pipe) e)
  ]

  need_decoder-IsReady :
      (d index : ℕ) (x : RemoteContext B) (q : DataPipe ℕ ℕ)
      → x.packet_pipe ≡ some q
      → (y : RemoteContext B) × (i : ℕ) × (c : ℕ) × (need_decoder d x index ≡ some (y, i))
        × IsReady y c
  unfolding need_decoder start_decoder
  need_decoder-IsReady d index x q e = elim (Option-cases x.decoder) [
    | inl none_yet ↦ (
      record x { packet_pipe = some (on_data_changed d index q).0; decoder = some d },
      (on_data_changed d index q).1,
      d,
      rw (none_yet, need_decoder) (rw e refl),
      record { pipe = (on_data_changed d index q).0; has_pipe = refl; has_decoder = refl },
    )
    | inr (c, is) ↦
        (x, index, c, simp (is, need_decoder), record { pipe = q; has_pipe = e; has_decoder = is })
  ]

  ready-IsReady :
      (objects : List ℕ) (m : Medium) (id : ℤ) (p : PeerContext B) (s : Service B)
      → (q : PeerContext B) × (t : Service B) × (c : ℕ) × (ready objects m id p s ≡ some (q, t))
        × IsReady (remote m q) c
        × (get_peer_context id t ≡ some q)
  unfolding ready
  ready-IsReady objects m id p s =
      let (q, has_pipe) = need_pipe-some objects (remote m p) in
      let (y, i, c, e, v) =
        need_decoder-IsReady s.next s.packet_index (need_pipe objects (remote m p)) q has_pipe in
      let r = with_remote m (λ _. y) p in
      let u = record s { next = suc s.next; packet_index = i } in
      (
        r,
        put_peer id r u,
        c,
        rw (e, ready) refl,
        subst (λ x. IsReady x c) (sym (remote-with_remote m (λ _. y) p)) v,
        get_peer_context-put_peer id r u,
      )

  ready-same :
      (objects : List ℕ) (m : Medium) (id : ℤ) (p : PeerContext B) (s : Service B) (c : ℕ)
      → IsReady (remote m p) c
      → (q : PeerContext B) × (t : Service B) × (ready objects m id p s ≡ some (q, t))
        × ((remote m q).decoder ≡ some c)
  unfolding ready need_pipe need_decoder
  ready-same objects m id p s c v =
      let x = remote m p in
      let same_pipe : need_pipe objects x ≡ x = simp (v.has_pipe, need_pipe) in
      let same : need_decoder s.next x s.packet_index ≡ some (x, s.packet_index) =
        simp (v.has_decoder, need_decoder) in
      (
        with_remote m (λ _. x) p,
        put_peer id (with_remote m (λ _. x) p)
            (record s { next = suc s.next; packet_index = s.packet_index }),
        rw (ap (λ y. need_decoder s.next y s.packet_index) same_pipe ∙ same, ready) refl,
        ap (λ (y : RemoteContext B). y.decoder) (remote-with_remote m (λ _. x) p) ∙ v.has_decoder,
      )

  -- The remote stream of a user can always be had, and who asks again gets the same decoder.
  pub get_remote-again :
      (blank : List B) (objects : List ℕ) (m : Medium) (id : ℤ) (s : Service B)
      → (d : ℕ) × (t : Service B) × (u : Service B) × (get_remote blank objects m id s
          ≡ some (some d, t))
        × (get_remote blank objects m id t ≡ some (some d, u))
  unfolding get_remote get_or_create
  get_remote-again blank objects m id s =
      let (p, s1) = get_or_create blank id s in
      let (q, t, c, e, v, found) = ready-IsReady objects m id p s1 in
      let (r, u, g, w) = ready-same objects m id q t c v in
      (
        c,
        t,
        u,
        rw (e, get_remote) (rw v.has_decoder refl),
        rw (found, get_remote, get_or_create) (rw (g, get_remote) (rw w refl)),
      )
