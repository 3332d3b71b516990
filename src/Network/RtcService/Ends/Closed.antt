-- ===== src/Network/RtcService/Ends/Closed.antt =====
-- What is left after a local stream or a connection is closed (lib/network/rtcservice.cpp).
use chat_up.Base.{
  ℕ, ◌≡◌, refl, sym, ◌∙◌, Option-cases, inl, inr, Option, none, some, List, [], ◌∷◌, ◌++◌, ℤ,
  int_eq, append-nil, append_assoc,
}
use chat_up.Base.Map
use chat_up.Media.DataPipe.{DataPipe, remove_listener}
use chat_up.Network.RtcService.{
  Medium, audio, video, PeerContext, Sender, Service, remote, output, set_output, unsubscribe,
}
use chat_up.Network.RtcService.Local.Sent.{set_output-peers, output-set_output}
use chat_up.Network.RtcService.Ends.{unsubscribe_all, close_local_video, close_local_audio}

abbrev pub index_of_one : Option ℕ → List ℕ → List ℕ
index_of_one none is = is
index_of_one (some i) is = i ∷ is

module _ {B : Type 0} where
  -- The listeners that the contexts of a list have on the output of a medium, in order.
  abbrev pub listeners_of : Medium → List (PeerContext B) → List ℕ
  listeners_of m [] = []
  listeners_of m (p ∷ ps) = index_of_one (remote m p).listener (listeners_of m ps)

  -- The state in which the listeners of a list are to be removed from the output, and no context is
  -- another.
  pub record IsClosed (m : Medium) (is : List ℕ) (s : Service B) (out : DataPipe ℕ Sender)
      (t : Service B) : Type 0 where
    pub pipe : DataPipe ℕ Sender
    pub here : output m t ≡ some pipe
    pub queue : pipe.remove_listener_queue ≡ out.remove_listener_queue ++ is
    pub listeners : pipe.listeners ≡ out.listeners
    pub contexts : t.peer_contexts ≡ s.peer_contexts

  unsubscribe_all-IsClosed :
      (m : Medium) (ps : List (PeerContext B)) (s : Service B) (out : DataPipe ℕ Sender)
      → output m s ≡ some out
      → (t : Service B) × (unsubscribe_all m ps s ≡ some t) × IsClosed m (listeners_of m ps) s out t
  unfolding unsubscribe_all unsubscribe remove_listener
  unsubscribe_all-IsClosed m [] s out o = (
    s,
    refl,
    record {
      pipe = out;
      here = o;
      queue = sym (append-nil out.remove_listener_queue);
      listeners = refl;
      contexts = refl;
    },
  )
  unsubscribe_all-IsClosed m (p ∷ ps) s out o = elim (Option-cases (remote m p).listener) [
    | inl e ↦ rw (e, unsubscribe_all, unsubscribe) (unsubscribe_all-IsClosed m ps s out o)
    | inr (i, e) ↦
        let q = remove_listener i out in
        let (t, f, v) =
          unsubscribe_all-IsClosed m ps (set_output m q s) q (output-set_output m q out s o) in
        rw (e, unsubscribe_all, unsubscribe)
          (
            t,
            rw (o, unsubscribe_all, unsubscribe) f,
            record {
              pipe = v.pipe;
              here = v.here;
              queue = v.queue ∙ append_assoc out.remove_listener_queue (i ∷ []) (listeners_of m ps);
              listeners = v.listeners;
              contexts = v.contexts ∙ set_output-peers m q s;
            },
          )
  ]

  -- To close a local stream for one user takes the listeners of all users off the stream, whichever
  -- user was named; every context keeps its listener's index.
  pub close_local-all :
      (user : ℤ) (s : Service B) (v a : DataPipe ℕ Sender)
      → output video s ≡ some v
      → output audio s ≡ some a
      → ((t : Service B) × (close_local_video user s ≡ some t)
          × IsClosed video (listeners_of video (Map.values s.peer_contexts)) s v t)
        × ((t : Service B) × (close_local_audio user s ≡ some t)
            × IsClosed audio (listeners_of audio (Map.values s.peer_contexts)) s a t)
  unfolding close_local_video close_local_audio
  close_local-all user s v a ov oa = (
    unsubscribe_all-IsClosed video (Map.values s.peer_contexts) s v ov,
    unsubscribe_all-IsClosed audio (Map.values s.peer_contexts) s a oa,
  )
