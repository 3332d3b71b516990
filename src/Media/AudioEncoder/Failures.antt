-- ===== src/Media/AudioEncoder/Failures.antt =====
-- lib/media/encoder.cpp: what becomes of the input of the audio encoder where FFmpeg fails.
use chat_up.Base.{
  ℕ, ◌≡◌, ◌<◌, refl, Bool, true, false, none, some, List, [], ◌∷◌, ltb, get_elem?, get_elem?-set,
  nat_beq, arith, lt→ltb,
}
use chat_up.Media.DataPipe.{SubPipe, DataPipe, unmap_reading, settle, pred_word}
use chat_up.Media.VideoEncoder.{Effect, given_back, listened, listener_removed}
use chat_up.Media.AudioEncoder.{
  AudioEncoder, Answer, Encoded, broken_off, after_chunk, take_round, send_chunk, rounds,
  give_frame, on_frame, start, with_swr, required_sample_rate,
}

module _ {P C : Type 0} where
  -- A frame longer than one chunk, of which the codec refuses the first chunk and the conversion of the
  -- second fails, is given back twice.
  pub on_frame-failed :
      (p i frame_size samples packets : ℕ) (later : ℕ → Answer) (e : AudioEncoder P C)
      → frame_size < samples
      → e.context ≡ some frame_size
      → e.has_swr ≡ true
      → later 0 ≡ record { is_sent = false; packets = packets; is_converted = false }
      → on_frame p i samples later e
        ≡ some (
            broken_off (record {
              encoder = e;
              effects = given_back p i ∷ given_back p i ∷ [];
              asked = frame_size ∷ [];
              calls = [];
            }))
  unfolding on_frame rounds take_round after_chunk send_chunk give_frame
  on_frame-failed p i frame_size samples packets later e long c w a =
      let on : ltb frame_size samples ≡ true = lt→ltb frame_size samples long in
      simp (c, w, on, a, on_frame, rounds)

  -- A source that has the rate and a format of the codec gets no converter, and the first frame is then
  -- converted without one.
  pub on_frame-unconverted :
      (p i format frame_size samples : ℕ) (answers : ℕ → Answer) (made : Bool)
      (e : AudioEncoder P C)
      → e.context ≡ some frame_size
      → e.has_swr ≡ false
      → on_frame p i samples answers (start p format format required_sample_rate made true i e).0
        ≡ none
  unfolding on_frame start with_swr
  on_frame-unconverted p i format frame_size samples answers made e c w =
      let same : nat_beq format format ≡ true = ground arith in rw (same, c, w) refl

module _ {T C : Type 0} where
  -- The pipe of the input after what the encoder does to it.
  abbrev pub give_backs : List Effect → DataPipe T C → DataPipe T C
  give_backs [] q = q
  give_backs (given_back p i ∷ fx) q = give_backs fx (unmap_reading i q)
  give_backs (listened p ∷ fx) q = give_backs fx q
  give_backs (listener_removed p i ∷ fx) q = give_backs fx q

  -- Two reads that end on a buffer of two listeners free it.
  unmap_reading-twice :
      (i : ℕ) (t : T) (q : DataPipe T C)
      → get_elem? q.subpipes i ≡ some (record { is_free = false; ptr = t; readings = 2 })
      → get_elem? (unmap_reading i (unmap_reading i q)).subpipes i
        ≡ some (record { is_free = true; ptr = t; readings = 0 })
  unfolding unmap_reading settle pred_word
  unmap_reading-twice i t q e =
      let one : SubPipe T = record { is_free = false; ptr = t; readings = 1 } in
      let kept : get_elem? (unmap_reading i q).subpipes i ≡ some one =
        rw (e, unmap_reading) (get_elem?-set q.subpipes i _ one e) in
      rw (kept, unmap_reading) (get_elem?-set (unmap_reading i q).subpipes i one _ kept)

-- While another listener still reads a frame longer than one chunk, the audio encoder, to which the
-- codec refuses the first chunk and FFmpeg the conversion of the second, gives the frame back twice, and
-- its buffer is free.
pub on_frame-frees :
    {P C T D : Type 0} (p i frame_size samples packets : ℕ) (answers : ℕ → Answer)
    (e : AudioEncoder P C) (t : T) (q : DataPipe T D)
    → frame_size < samples
    → e.context ≡ some frame_size
    → e.has_swr ≡ true
    → answers 0 ≡ record { is_sent = false; packets = packets; is_converted = false }
    → get_elem? q.subpipes i ≡ some (record { is_free = false; ptr = t; readings = 2 })
    → (r : Encoded P C) × (on_frame p i samples answers e ≡ some (broken_off r))
      × (get_elem? (give_backs r.effects q).subpipes i
          ≡ some (record { is_free = true; ptr = t; readings = 0 }))
on_frame-frees p i frame_size samples packets answers e t q long c w a g = (
  _,
  on_frame-failed p i frame_size samples packets answers e long c w a,
  unmap_reading-twice i t q g,
)
