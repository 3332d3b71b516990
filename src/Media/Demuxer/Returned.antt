-- ===== src/Media/Demuxer/Returned.antt =====
-- lib/media/decoder.cpp: how often a demuxer gives back the raw buffer that it reads.
use chat_up.Base.{
  ℕ, zero, suc, ◌+◌, ◌≤◌, ◌<◌, ◌≡◌, ◌∙◌, ◌⊎◌, inl, inr, refl, ap, Bool, true, false, List, [], ◌∷◌,
  ◌++◌, map, length, sum, nat_beq, arith,
}
use chat_up.Media.DataPipe.{DataPipe, held, try_hold_for_writing, unmap_writing, unmap_reading}
use chat_up.Media.Demuxer.{ReadingOpaque, Frame, Demuxer, Demuxed, ended, end_write, rounds, on_raw}
use chat_up.Media.Demuxer.Reads.{up_to, IsReading, reads-take}

-- A call of av_read_frame that succeeds and reads with these sizes.
abbrev pub succeeded : List ℕ → Frame
succeeded ns = record { sizes = ns; is_read = true }

abbrev pub total : List (List ℕ) → ℕ
total [] = 0
total (ns ∷ rest) = sum ns + total rest

abbrev pub give_backs : {T D : Type 0} → ℕ → ℕ → DataPipe T D → DataPipe T D
give_backs zero i q = q
give_backs (suc k) i q = give_backs k i (unmap_reading i q)

module _ {T D P C : Type 0} where
  -- A round that fails, or after which all is read, is the last one.
  round-last :
      (index subpipe : ℕ) (ns : List ℕ) (b : Bool) (more : List Frame) (input : DataPipe T D)
      (o : ReadingOpaque) (out : DataPipe P C)
      → IsReading o
      → (b ≡ false) ⊎ (o.size ≤ o.total_written + sum ns)
      → rounds index subpipe (record { sizes = ns; is_read = b } ∷ more) input o out
        ≡ end_write subpipe b
            (unmap_reading index input)
            (record o { total_written = up_to (o.total_written + sum ns) o.size })
            out
  unfolding rounds
  round-last index subpipe ns false more input o out w end = rw (rounds, reads-take ns o w) refl
  round-last index subpipe ns true more input o out w (inl e) = cc
  round-last index subpipe ns true more input o out w (inr all) =
      let at_end : nat_beq (up_to (o.total_written + sum ns) o.size) o.size ≡ true = ground arith in
      rw (rounds, reads-take ns o w, at_end) refl

  round-more :
      (index subpipe : ℕ) (ns : List ℕ) (more : List Frame) (input : DataPipe T D)
      (o : ReadingOpaque) (out : DataPipe P C)
      → IsReading o
      → o.total_written + sum ns < o.size
      → rounds index subpipe (succeeded ns ∷ more) input o out
        ≡ rounds index subpipe more
            (unmap_reading index input)
            (record o { total_written = o.total_written + sum ns })
            out
  unfolding rounds
  round-more index subpipe ns more input o out w less =
      let at_place : up_to (o.total_written + sum ns) o.size ≡ o.total_written + sum ns =
        ground arith in
      let goes_on : nat_beq (o.total_written + sum ns) o.size ≡ false = ground arith in
      rw (rounds, reads-take ns o w, at_place, goes_on) refl

  rounds-returned :
      (index subpipe : ℕ) (fs : List (List ℕ)) (ns : List ℕ) (b : Bool) (more : List Frame)
      (input : DataPipe T D) (o : ReadingOpaque) (out : DataPipe P C)
      → IsReading o
      → o.total_written + total fs < o.size
      → (b ≡ false) ⊎ (o.size ≤ o.total_written + total fs + sum ns)
      → rounds index subpipe
          (map succeeded fs ++ record { sizes = ns; is_read = b } ∷ more)
          input
          o
          out
        ≡ end_write subpipe b
            (give_backs (suc (length fs)) index input)
            (record o { total_written = up_to (o.total_written + total fs + sum ns) o.size })
            out
  rounds-returned index subpipe [] ns b more input o out w less end =
      let move : ℕ → Demuxed T D P C = λ k.
        end_write subpipe b (unmap_reading index input)
          (record o { total_written = up_to (k + sum ns) o.size }) out in
      round-last index subpipe ns b more input o out w
        (elim end [ inl e ↦ inl e | inr e ↦ inr (omega (arith, e)) ])
      ∙ ap move (omega arith)
  rounds-returned index subpipe (f ∷ fs) ns b more input o out (long, h) less end =
      let p : ReadingOpaque = record o { total_written = o.total_written + sum f } in
      let move : ℕ → Demuxed T D P C = λ k.
        end_write subpipe b (give_backs (suc (suc (length fs))) index input)
          (record o { total_written = up_to (k + sum ns) o.size }) out in
      round-more index subpipe f _ input o out (long, h) (omega arith)
      ∙ rounds-returned index subpipe fs ns b more (unmap_reading index input) p out
          (long, omega arith) (omega arith)
          (elim end [ inl e ↦ inl e | inr e ↦ inr (omega (arith, e)) ])
      ∙ ap move (omega arith)

  -- Where the output has a permit and a free buffer, and the calls of av_read_frame before the last one
  -- succeed and leave some of the raw buffer unread, and the last one fails or has read all of it: the
  -- listener ends, has given back the index of its input once for each of these calls, and publishes the
  -- packet if the last one succeeded and else unmaps it unread.
  pub on_raw-returns :
      (raw : List ℕ) (index i : ℕ) (fs : List (List ℕ)) (ns : List ℕ) (b : Bool) (more : List Frame)
      (t : P) (input : DataPipe T D) (d : Demuxer P C) (out : DataPipe P C)
      → try_hold_for_writing d.out ≡ held t i out
      → total fs < length raw
      → (b ≡ false) ⊎ (length raw ≤ total fs + sum ns)
      → on_raw raw
          (length raw)
          index
          (map succeeded fs ++ record { sizes = ns; is_read = b } ∷ more)
          input
          d
        ≡ ended
            (give_backs (suc (length fs)) index input)
            (record {
              reading_opaque = record {
                bytes = raw;
                size = length raw;
                total_written = up_to (total fs + sum ns) (length raw);
              };
              out = (unmap_writing i b out).0;
            })
            (unmap_writing i b out).1
  unfolding on_raw end_write
  on_raw-returns raw index i fs ns b more t input d out hold less end =
      let o : ReadingOpaque = record { bytes = raw; size = length raw; total_written = 0 } in
      rw (on_raw, hold)
        (rounds-returned index i fs ns b more input o out (refl, omega arith) (omega arith)
            (elim end [ inl e ↦ inl e | inr e ↦ inr (omega (arith, e)) ])
          ∙ ap
              (λ k.
                end_write i b (give_backs (suc (length fs)) index input)
                  (record o { total_written = up_to (k + sum ns) (length raw) }) out)
              (omega arith))
