-- ===== src/Media/Demuxer/Tests.antt =====
-- The demuxers (lib/media/decoder.cpp) on a raw buffer of five bytes.
use chat_up.Base.{ℕ, ◌≡◌, refl, true, false, none, inr, List, [], ◌∷◌, arith}
use chat_up.Media.DataPipe.{
  SubPipe, unmap_reading, unmap_writing, settle, pred_word, try_hold_for_writing, acquire, get_free,
  take_free, held,
}
use chat_up.Media.DataPipe.Quiet.{quiet}
use chat_up.Media.Demuxer.{ReadingOpaque, new_opaque, Demuxer, ended, h264_read, reads, on_raw}
use chat_up.Media.Demuxer.Reads.{reads-take}
use chat_up.Media.Demuxer.Returned.{succeeded, give_backs, on_raw-returns}

abbrev five : List ℕ
five = 1 ∷ 2 ∷ 3 ∷ 4 ∷ 5 ∷ []

abbrev of_five : ReadingOpaque
of_five = record { bytes = five; size = 5; total_written = 1 }

-- Three reads of two bytes, of which one is read already.
reads-take_example :
    reads (2 ∷ 2 ∷ 2 ∷ []) of_five ≡ (record of_five { total_written = 5 }, 2 ∷ 3 ∷ 4 ∷ 5 ∷ [])
reads-take_example = reads-take (2 ∷ 2 ∷ 2 ∷ []) of_five (refl, omega arith)

abbrev taken_by_two : List (SubPipe ℕ)
taken_by_two = record { is_free = false; ptr = 9; readings = 2 } ∷ []

abbrev idle : List (SubPipe ℕ)
idle = record { is_free = true; ptr = 7; readings = 0 } ∷ []

abbrev busy : List (SubPipe ℕ)
busy = record { is_free = false; ptr = 7; readings = 0 } ∷ []

abbrev demuxer : Demuxer ℕ ℕ
demuxer = record { reading_opaque = new_opaque; out = quiet 1 idle }

idle-held : try_hold_for_writing demuxer.out ≡ held 7 0 (quiet 0 busy)
unfolding try_hold_for_writing acquire get_free take_free
idle-held = refl

-- Two calls of av_read_frame: the input is given back twice.
on_raw-returns_example :
    on_raw five 5 0
      (succeeded (2 ∷ []) ∷ succeeded (4 ∷ []) ∷ [])
      (quiet {C = ℕ} 0 taken_by_two)
      demuxer
    ≡ ended
        (give_backs 2 0 (quiet 0 taken_by_two))
        (record {
          reading_opaque = record { bytes = five; size = 5; total_written = 5 };
          out = (unmap_writing 0 true (quiet 0 busy)).0;
        })
        (unmap_writing 0 true (quiet 0 busy)).1
on_raw-returns_example =
    on_raw-returns five 0 0 ((2 ∷ []) ∷ []) (4 ∷ []) true [] 7 (quiet 0 taken_by_two) demuxer
      (quiet 0 busy) idle-held (omega arith) (inr (omega arith))

-- So its buffer is free, though only one of its two listeners has read it.
give_backs-frees :
    give_backs 2 0 (quiet {C = ℕ} 0 taken_by_two)
    ≡ quiet 1 (record { is_free = true; ptr = 9; readings = 0 } ∷ [])
unfolding unmap_reading settle pred_word
give_backs-frees = refl

-- The constructor opens the format on an empty buffer: the first read is at its end.
new_opaque-read : h264_read new_opaque 25000 ≡ (new_opaque, none)
unfolding h264_read
new_opaque-read = refl
