-- ===== src/Media/VideoEncoder/Stamps.antt =====
-- The times that the packets of the video encoder go out with (lib/media/encoder.cpp).
use chat_up.Base.{
  ℕ, zero, suc, ◌≡◌, refl, sym, ap, subst, ◌∙◌, Bool, true, false, Option, none, some, List, [],
  ◌∷◌, if◌then◌else◌,
}
use chat_up.Media.DataPipe.{Call, overflow, logic_error, held, try_hold_for_writing, unmap_writing}
use chat_up.Media.VideoEncoder.{
  VideoEncoder, Encoded, Effect, Stamp, given_back, next_word, written, receive, read_frame,
  on_frame,
}

-- The stamps count on from a number, both times alike.
abbrev pub Numbered : ℕ → List Stamp → Type 0
Numbered n [] = Unit
Numbered n (s ∷ ss) = (s.pts ≡ next_word n) × (s.dts ≡ next_word n) × Numbered (next_word n) ss

-- The number of the last stamp.
abbrev pub count_on : ℕ → List Stamp → ℕ
count_on n [] = n
count_on n (s ∷ ss) = count_on (next_word n) ss

module _ {P C : Type 0} where
  -- An encoder that has counted on from `n`, in step.
  pub record IsCounted (n : ℕ) (fx : List Effect) (r : Encoded P C) : Type 0 where
    pub numbered : Numbered n r.stamps
    pub count : r.encoder.pts ≡ count_on n r.stamps
    pub in_step : r.encoder.dts ≡ r.encoder.pts
    pub effects : r.effects ≡ fx

  abbrev Counted : ℕ → List Effect → Option (Encoded P C) → Type 0
  Counted n fx none = Unit
  Counted n fx (some r) = IsCounted n fx r

  written-Counted :
      (n : ℕ) (s : Stamp) (cs : List (Call P C)) (o : Option (Encoded P C))
      → s.pts ≡ next_word n
      → s.dts ≡ next_word n
      → Counted (next_word n) [] o
      → Counted n [] (written s cs o)
  unfolding written
  written-Counted n s cs none p d h = tt
  written-Counted n s cs (some r) p d h = record {
    numbered = (p, d, h.numbered);
    count = h.count;
    in_step = h.in_step;
    effects = h.effects;
  }

  receive-Counted : (n : ℕ) (e : VideoEncoder P C) → e.dts ≡ e.pts → Counted e.pts [] (receive n e)
  unfolding receive
  receive-Counted zero e same =
      elim (try_hold_for_writing e.out)
        as (λ h. Counted e.pts [] (elim h as (λ x. Option (Encoded P C)) [
          | overflow ↦ some (record { encoder = e; effects = []; stamps = []; calls = [] })
          | logic_error ↦ none
          | held t i o ↦ some (record {
            encoder = record e { out = (unmap_writing i false o).0 };
            effects = [];
            stamps = [];
            calls = (unmap_writing i false o).1;
          })
        ])) [
          | overflow ↦ record { numbered = tt; count = refl; in_step = same; effects = refl }
          | logic_error ↦ tt
          | held t i o ↦ record { numbered = tt; count = refl; in_step = same; effects = refl }
        ]
  receive-Counted (suc n) e same =
      let stamp : Stamp = record { pts = next_word e.pts; dts = next_word e.dts } in
      elim (try_hold_for_writing e.out)
        as (λ h. Counted e.pts [] (elim h as (λ x. Option (Encoded P C)) [
          | overflow ↦ some (record { encoder = e; effects = []; stamps = []; calls = [] })
          | logic_error ↦ none
          | held t i o ↦ written stamp (unmap_writing i true o).1 (
              receive n
                (record e { pts = stamp.pts; dts = stamp.dts; out = (unmap_writing i true o).0 }))
        ])) [
          | overflow ↦ record { numbered = tt; count = refl; in_step = same; effects = refl }
          | logic_error ↦ tt
          | held t i o ↦
              let q = record e {
                pts = stamp.pts;
                dts = stamp.dts;
                out = (unmap_writing i true o).0;
              } in
              written-Counted e.pts stamp (unmap_writing i true o).1 (receive n q) refl
                (ap next_word same) (receive-Counted n q (ap next_word same))
        ]

  read_frame-Counted :
      (n p index : ℕ) (o : Option (Encoded P C))
      → Counted n [] o
      → Counted n (given_back p index ∷ []) (read_frame p index o)
  unfolding read_frame
  read_frame-Counted n p index none h = tt
  read_frame-Counted n p index (some r) h = record {
    numbered = h.numbered;
    count = h.count;
    in_step = h.in_step;
    effects = ap (λ fx. given_back p index ∷ fx) h.effects;
  }

  -- An encoder with a codec and an input, whose two times are in step: whether the codec takes a frame
  -- or not and whether the output has room or not, the frame is given back once, the packets that come
  -- out are numbered on from the last one, modulo 2 ^ 64, both times alike, and the times stay in step.
  pub on_frame-IsCounted :
      (p index n : ℕ) (sent : Bool) (e : VideoEncoder P C) (r : Encoded P C)
      → e.has_context ≡ true
      → e.input ≡ some p
      → e.dts ≡ e.pts
      → on_frame index sent n e ≡ some r
      → IsCounted e.pts (given_back p index ∷ []) r
  unfolding on_frame
  on_frame-IsCounted p index n sent e r c i same run =
      let nothing : Encoded P C = record { encoder = e; effects = []; stamps = []; calls = [] } in
      let body : Option (Encoded P C) = if sent then receive n e else some nothing in
      let counted : Counted e.pts [] body = either sent in
      let open_body : on_frame index sent n e ≡ read_frame p index body = simp (c, i, on_frame) in
      subst (Counted e.pts (given_back p index ∷ [])) (sym open_body ∙ run)
        (read_frame-Counted e.pts p index body counted)
    where
      either :
          (b : Bool)
          → Counted e.pts [] (
              if b
              then receive n e
              else some (record { encoder = e; effects = []; stamps = []; calls = [] }))
      either true = receive-Counted n e same
      either false = record { numbered = tt; count = refl; in_step = same; effects = refl }
