-- ===== src/Media/SinkConnector/Frames.antt =====
-- Which frames a connector gives back to its pipe (lib/media/media.cpp).
use chat_up.Base.{ℕ, ◌≡◌, refl, ap, false, Option, none, some, List, [], ◌∷◌, ◌++◌, pos, nat_beq}
use chat_up.Media.SinkConnector.{
  SinkConnector, Effect, listened, listener_removed, frame_shown, blank_shown, unmapped, Outcome,
  drain, close, same, leave, establish, try_establish, try_close, connect_pipe, connect_sink,
  give_back, on_frame,
}

-- A connector that listens to pipe `p` for sink `s`, and what it holds.
abbrev pub showing : ℕ → ℕ → ℕ → Option ℕ → Option ℕ → SinkConnector
showing p s l held cur = record {
  current = cur;
  prev = held;
  listener_index = pos l;
  sink = some s;
  input = some p;
}

-- The callback for one frame after the other.
pub on_frames : List ℕ → SinkConnector → Outcome
unfolding on_frame
on_frames [] c = some (c, [])
on_frames (i ∷ is) c = elim (on_frame i c) [
  | none ↦ none
  | some (d, fx) ↦ elim (on_frames is d) [ none ↦ none | some (e, gx) ↦ some (e, fx ++ gx) ]
]

-- The indices that are given back, in order.
abbrev pub given_back : List Effect → List ℕ
given_back [] = []
given_back (unmapped p i ∷ fx) = i ∷ given_back fx
given_back (listened p ∷ fx) = given_back fx
given_back (listener_removed p i ∷ fx) = given_back fx
given_back (frame_shown s i ∷ fx) = given_back fx
given_back (blank_shown s ∷ fx) = given_back fx

-- The last of the frames, and those before it with what is held first.
abbrev pub last_of : Option ℕ → List ℕ → Option ℕ
last_of held [] = held
last_of held (i ∷ is) = last_of (some i) is

abbrev pub earlier : Option ℕ → List ℕ → List ℕ
earlier held [] = []
earlier none (i ∷ is) = earlier (some i) is
earlier (some j) (i ∷ is) = j ∷ earlier (some i) is

frames_lem :
    (p s l : ℕ) (held cur : Option ℕ) (is : List ℕ)
    → (d : SinkConnector) × (fx : List Effect) × (on_frames is (showing p s l held cur)
        ≡ some (d, fx))
      × (d.prev ≡ last_of held is)
      × (given_back fx ≡ earlier held is)
unfolding on_frames on_frame give_back
frames_lem p s l held cur [] = (showing p s l held cur, [], refl, refl, refl)
frames_lem p s l none cur (i ∷ is) =
    let (d, fx, e, h, g) = frames_lem p s l (some i) none is in
    (d, frame_shown s i ∷ fx, rw e, h, g)
frames_lem p s l (some j) cur (i ∷ is) =
    let (d, fx, e, h, g) = frames_lem p s l (some i) (some j) is in
    (d, frame_shown s i ∷ unmapped p j ∷ fx, rw e, h, ap (λ q. j ∷ q) g)

-- A connector that shows the frames of a pipe, whatever it holds at first, gives back to the pipe what
-- it held and every frame but the last, in order and once each, and holds the last one.
pub on_frames-given_back :
    (p s l i : ℕ) (held cur : Option ℕ) (is : List ℕ)
    → (d : SinkConnector) × (fx : List Effect) × (on_frames (i ∷ is) (showing p s l held cur)
        ≡ some (d, fx))
      × (d.prev ≡ last_of (some i) is)
      × (given_back fx ≡ earlier held (i ∷ is))
on_frames-given_back p s l i held cur is = frames_lem p s l held cur (i ∷ is)

-- A connector that is given another pipe leaves the old one without giving back the frame that it
-- holds: it takes its listener off, clears the sink, listens to the new pipe and holds nothing, so no
-- later call gives that frame back.
pub connect_pipe-kept :
    (p q s l n : ℕ) (held cur : Option ℕ)
    → nat_beq p q ≡ false
    → connect_pipe n (some q) (showing p s l held cur)
      ≡ some (showing q s n none none, listener_removed p (pos l) ∷ blank_shown s ∷ listened q ∷ [])
unfolding connect_pipe try_close try_establish establish close leave drain
connect_pipe-kept p q s l n held cur e = rw e

-- A connector that is given another sink, or none, while it shows frames stops: it takes its listener
-- off the pipe, forgets the pipe and listens to none.
pub connect_sink-stops :
    (p s l n : ℕ) (held cur other : Option ℕ)
    → same other (some s) ≡ false
    → connect_sink n other (showing p s l held cur)
      ≡ some (
        record { current = none; prev = none; listener_index = pos l; sink = other; input = none },
        listener_removed p (pos l) ∷ blank_shown s ∷ [],
      )
unfolding connect_sink try_close try_establish establish close leave drain
connect_sink-stops p s l n held cur other e = rw e
