-- ===== src/Media/AudioOutput/Played.antt =====
-- lib/media/audiooutput.cpp: what becomes of the frames that an audio output plays.
use chat_up.Base.{
  ℕ, ◌≡◌, ◌∙◌, refl, sym, ap, ap₂, true, false, none, some, List, [], ◌∷◌, ◌++◌, map, Bool-cases,
  inl, inr,
}
use chat_up.Media.AudioOutput.{
  Output, Effect, listened, listener_removed, given_back, sink_made, sink_deleted, sink_started,
  volume_set, written, Frame, start, close, on_frame, on_frames, before, play, listen,
  remove_listener, delete_sink,
}

-- `start` of the sink gives no null pointer, whichever frame calls it.
abbrev pub AllStart : List Frame → Type 0
AllStart [] = Unit
AllStart (f ∷ fs) = (f.starts ≡ true) × AllStart fs

module _ {D : Type 0} where
  -- The indices that were given back to a pipe, in their order.
  abbrev pub returns : List (Effect D) → List (ℕ × ℕ)
  returns [] = []
  returns (given_back p i ∷ fx) = (p, i) ∷ returns fx
  returns (listened p ∷ fx) = returns fx
  returns (listener_removed p i ∷ fx) = returns fx
  returns (sink_made d format ∷ fx) = returns fx
  returns (sink_deleted ∷ fx) = returns fx
  returns (sink_started ∷ fx) = returns fx
  returns (volume_set ∷ fx) = returns fx
  returns (written i ∷ fx) = returns fx

  returns-append : (fx gx : List (Effect D)) → returns (fx ++ gx) ≡ returns fx ++ returns gx
  returns-append [] gx = refl
  returns-append (given_back p i ∷ fx) gx = ap (◌∷◌ (p, i)) (returns-append fx gx)
  returns-append (listened p ∷ fx) gx = returns-append fx gx
  returns-append (listener_removed p i ∷ fx) gx = returns-append fx gx
  returns-append (sink_made d format ∷ fx) gx = returns-append fx gx
  returns-append (sink_deleted ∷ fx) gx = returns-append fx gx
  returns-append (sink_started ∷ fx) gx = returns-append fx gx
  returns-append (volume_set ∷ fx) gx = returns-append fx gx
  returns-append (written i ∷ fx) gx = returns-append fx gx

  -- An output that plays the pipe p: its sink, where it has one, was started.
  abbrev pub Plays : ℕ → Output D → Type 0
  Plays p o = (o.input ≡ some p) × (o.is_started ≡ true) × (o.has_sink ≡ o.has_io)

  on_frame-returns :
      (p : ℕ) (f : Frame) (o : Output D)
      → Plays p o
      → f.starts ≡ true
      → (r : Output D) × (fx : List (Effect D)) × (on_frame f o ≡ some (r, fx))
        × Plays p r
        × (returns fx ≡ (p, f.index) ∷ [])
        × (r.listener_index ≡ o.listener_index)
  unfolding on_frame play before
  on_frame-returns p f o (i, s, h) st =
      let played : List (Effect D) = written f.index ∷ given_back p f.index ∷ [] in
      let on : Output D = record o { has_io = true; has_sink = true } in
      elim (Bool-cases o.has_sink) [
        | inl k ↦ elim (Bool-cases f.is_active) [
          | inl a ↦ (o, played, simp (on_frame, i, k, a, sym h ∙ k), (i, s, h), refl, refl)
          | inr a ↦
              (on, sink_started ∷ played, simp (on_frame, i, k, a, st), (i, s, refl), refl, refl)
        ]
        | inr k ↦ elim (Bool-cases f.is_supported) [
          | inl a ↦ (
            on,
            sink_made o.device f.format ∷ sink_started ∷ played,
            simp (on_frame, i, k, a, st),
            (i, s, refl),
            refl,
            refl,
          )
          | inr a ↦
              (o, given_back p f.index ∷ [], simp (on_frame, i, k, a, st), (i, s, h), refl, refl)
        ]
      ]

  on_frames-returns :
      (p : ℕ) (fs : List Frame) (o : Output D)
      → Plays p o
      → AllStart fs
      → (r : Output D) × (fx : List (Effect D)) × (on_frames fs o ≡ some (r, fx))
        × Plays p r
        × (returns fx ≡ map (λ (f : Frame). (p, f.index)) fs)
        × (r.listener_index ≡ o.listener_index)
  unfolding on_frames before
  on_frames-returns p [] o w st = (o, [], refl, w, refl, refl)
  on_frames-returns p (f ∷ fs) o w (st, sts) =
      let (q, fx, one, plays, back, l) = on_frame-returns p f o w st in
      let (r, gx, more, still, backs, m) = on_frames-returns p fs q plays sts in
      (
        r,
        fx ++ gx,
        rw (on_frames, one, more) refl,
        still,
        returns-append fx gx ∙ ap₂ (λ xs ys. xs ++ ys) back backs,
        m ∙ l,
      )

  start-listens :
      (p index : ℕ) (d : D) (o : Output D)
      → o.is_started ≡ false
      → (start (some d) p index o).0 ≡ record o {
        device = some d;
        input = some p;
        listener_index = some index;
        is_started = true;
      }
  unfolding start listen
  start-listens p index d o s = simp (start, s)

  close-removes :
      (p index : ℕ) (o : Output D)
      → Plays p o
      → o.listener_index ≡ some index
      → ((close o).0.input ≡ none) × ((close o).1 ≡ listener_removed p index ∷ delete_sink o)
  unfolding close remove_listener
  close-removes p index o (i, s, h) l =
      (simp (close, remove_listener, i, s, l), simp (close, remove_listener, i, s, l))

  closed-frame : (f : Frame) (o : Output D) → o.input ≡ none → on_frame f o ≡ none
  unfolding on_frame
  closed-frame f o e = simp (on_frame, e)

  -- An output that is not started is started on a device that is found, and then gets frames, where the
  -- sink, whenever it is started, gives a device to write to: none of them reads a null pointer, and each is given back to its pipe once, in their order.
  -- After that close removes the listener, and one more frame reads the null input.
  pub start-close :
      (p index : ℕ) (d : D) (fs : List Frame) (f : Frame) (o : Output D)
      → o.is_started ≡ false
      → o.has_sink ≡ o.has_io
      → AllStart fs
      → (r : Output D) × (fx : List (Effect D)) × (on_frames fs (start (some d) p index o).0
          ≡ some (r, fx))
        × (returns fx ≡ map (λ (f : Frame). (p, f.index)) fs)
        × ((close r).1 ≡ listener_removed p index ∷ delete_sink r)
        × (on_frame f (close r).0 ≡ none)
  start-close p index d fs f o s h st =
      let (r, fx, run, plays, back, l) =
        on_frames-returns p fs
          (record o {
            device = some d;
            input = some p;
            listener_index = some index;
            is_started = true;
          })
          (refl, refl, h) st in
      let (closed, removed) = close-removes p index r plays l in
      (
        r,
        fx,
        ap (on_frames fs) (start-listens p index d o s) ∙ run,
        back,
        removed,
        closed-frame f _ closed,
      )
