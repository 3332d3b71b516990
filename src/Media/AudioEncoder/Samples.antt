-- ===== src/Media/AudioEncoder/Samples.antt =====
-- lib/media/encoder.cpp: how many samples of a frame the audio encoder asks its converter for.
use chat_up.Base.{
  sum, ℕ, zero, suc, ◌+◌, ◌-◌, ◌≤◌, ◌<◌, ◌≡◌, refl, Bool, true, false, some, List, [], ◌∷◌, ◌⊎◌,
  inl, inr, ltb, if◌then◌else◌, Bool-cases, arith,
}
use chat_up.Media.DataPipe.{Call}
use chat_up.Media.AudioEncoder.{
  AudioEncoder, Answer, Ending, finished, broken_off, out_of_fuel, thrown, Drained, drained,
  overflowed, drain_thrown, min, after_chunk, take_round, send_chunk, rounds, give_frame, on_frame,
}

abbrev pub Within : ℕ → List ℕ → Type 0
Within n [] = Unit
Within n (x ∷ xs) = (x ≤ n) × Within n xs

-- Where a loop stands that has still `n` samples to send.
abbrev Stands : ℕ → ℕ → ℕ → ℕ → ℕ → ℕ → Type 0
Stands samples fuel size encoded convert n =
    ((samples ≤ encoded) × (n ≡ 0))
    ⊎ ((encoded + convert ≤ samples)
        × (samples < encoded + fuel + convert)
        × (encoded < samples)
        × (n + encoded + convert ≡ size + samples))

Stands-next :
    (f samples fuel size encoded convert n : ℕ)
    → 0 < f
    → encoded + convert ≤ samples
    → samples < encoded + suc fuel + convert
    → n + encoded + convert ≡ size + samples
    → Stands samples fuel
        (min f (samples - (encoded + convert)))
        (encoded + convert)
        (min f (samples - (encoded + convert)))
        (samples - (encoded + convert))
Stands-next f samples fuel size encoded convert n pos below fuelled total =
    elim (Bool-cases (ltb (encoded + convert) samples)) [
      | inl t ↦ inr (ground arith, ground arith, ground arith, ground arith)
      | inr t ↦ inl (ground arith, ground arith)
    ]

module _ {P C : Type 0} where
  -- A frame that is done within the fuel, where the converter was asked for no more than `frame_size`
  -- samples before a chunk, and for that many in all, or no more where the loop is broken off.
  abbrev pub Chunked : ℕ → ℕ → Ending P C → Type 0
  Chunked frame_size n (finished r) = Within frame_size r.asked × (sum r.asked ≡ n)
  Chunked frame_size n (broken_off r) = Within frame_size r.asked × (sum r.asked ≤ n)
  Chunked frame_size n out_of_fuel = ¬ Unit
  Chunked frame_size n thrown = Unit

  after_chunk-Chunked :
      (frame_size size m n : ℕ) (cs : List (Call P C)) (o : Ending P C)
      → size ≤ frame_size
      → n ≡ size + m
      → Chunked frame_size m o
      → Chunked frame_size n (after_chunk size cs o)
  unfolding after_chunk
  after_chunk-Chunked f size m n cs (finished r) h e c = ((h, c.0), omega (arith, c.1))
  after_chunk-Chunked f size m n cs (broken_off r) h e c = ((h, c.0), omega (arith, c.1))
  after_chunk-Chunked f size m n cs out_of_fuel h e c = c
  after_chunk-Chunked f size m n cs thrown h e c = tt

  take_round-Chunked :
      (p i frame_size size m n : ℕ) (b : Bool) (d : Drained P C)
      (rest : AudioEncoder P C → Ending P C)
      → size ≤ frame_size
      → n ≡ size + m
      → ((e : AudioEncoder P C) → Chunked frame_size m (rest e))
      → Chunked frame_size n (take_round p i size b d rest)
  unfolding take_round after_chunk
  take_round-Chunked p i f size m n b drain_thrown rest h e c = tt
  take_round-Chunked p i f size m n b (overflowed x cs) rest h e c = ((h, tt), omega arith)
  take_round-Chunked p i f size m n false (drained x cs) rest h e c = ((h, tt), omega arith)
  take_round-Chunked p i f size m n true (drained x cs) rest h e c =
      after_chunk-Chunked f size m n cs (rest x) h e (c x)

  module _ (p i frame_size samples : ℕ) (answers : ℕ → Answer) (pos : 0 < frame_size) where
    rounds-Chunked :
        (fuel k size encoded convert n : ℕ) (e : AudioEncoder P C)
        → size ≤ frame_size
        → Stands samples fuel size encoded convert n
        → Chunked frame_size n (rounds p i frame_size samples answers fuel k size encoded convert e)
    unfolding rounds
    rounds-Chunked zero k size encoded convert n e h (inl q) =
        let off : ltb encoded samples ≡ false = ground arith in rw off (tt, omega (arith, q.1))
    rounds-Chunked zero k size encoded convert n e h (inr q) = absurd (omega (arith, q))
    rounds-Chunked (suc fuel) k size encoded convert n e h (inl q) =
        let off : ltb encoded samples ≡ false = ground arith in
        rw (rounds, off) (tt, omega (arith, q.1))
    rounds-Chunked (suc fuel) k size encoded convert n e h (inr q) =
        let on : ltb encoded samples ≡ true = ground arith in
        let next : ℕ = min frame_size (samples - (encoded + convert)) in
        rw (rounds, on)
          (take_round-Chunked p i frame_size size (samples - (encoded + convert)) n
            (answers k).is_converted (send_chunk (answers k) e) _ h (omega (arith, q))
            (λ f.
              rounds-Chunked fuel (suc k) next (encoded + convert) next
                (samples - (encoded + convert)) f (ground arith)
                (Stands-next frame_size samples fuel size encoded convert n pos q.0 q.1 q.3)))

    give_frame-Chunked :
        (n : ℕ) (o : Ending P C) → Chunked frame_size n o → Chunked frame_size n (give_frame p i o)
    unfolding give_frame
    give_frame-Chunked n (finished r) h = h
    give_frame-Chunked n (broken_off r) h = h
    give_frame-Chunked n out_of_fuel h = h
    give_frame-Chunked n thrown h = h

    -- With a converter and a frame size that is not 0, whatever FFmpeg and the output answer: the loop
    -- over the chunks of a frame ends. Before each chunk that it sends the converter was asked for no more
    -- samples than the frame size, and where the loop is not broken off these requests add up to the
    -- samples of a frame that is longer than the frame size. Of any other frame no chunk is sent.
    pub on_frame-Chunked :
        (e : AudioEncoder P C)
        → e.context ≡ some frame_size
        → e.has_swr ≡ true
        → (r : Ending P C) × (on_frame p i samples answers e ≡ some r)
          × Chunked frame_size (if ltb frame_size samples then samples else 0) r
    unfolding on_frame
    on_frame-Chunked e c w = (
      give_frame p i
          (rounds p i frame_size samples answers (suc samples) 0 frame_size frame_size 0 e),
      simp (c, w, on_frame),
      give_frame-Chunked _ _
          (rounds-Chunked (suc samples) 0 frame_size frame_size 0 _ e (omega arith) from_start),
    )
      where
        from_start :
            Stands samples
              (suc samples)
              frame_size
              frame_size
              0
              (if ltb frame_size samples then samples else 0)
        from_start = elim (Bool-cases (ltb frame_size samples)) [
          | inl t ↦ inr (ground arith, ground arith, ground arith, rw t (omega arith))
          | inr t ↦ inl (ground arith, rw t refl)
        ]
