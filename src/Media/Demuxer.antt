-- ===== src/Media/Demuxer.antt =====
-- lib/media/decoder.cpp: the demuxers of H264 and of Opus, which are the same but for the name of the
-- format. A raw buffer is its bytes and its size. FFmpeg's answers are an argument.
pub mod Reads
pub mod Returned
mod Tests
use chat_up.Base.{
  ℕ, ◌+◌, ◌-◌, ◌^◌, Bool, true, false, not, Option, none, some, List, [], ◌∷◌, ◌++◌, take, drop,
  leb, nat_beq, if◌then◌else◌,
}
use chat_up.Media.DataPipe.{
  DataPipe, Call, overflow, logic_error, held, try_hold_for_writing, unmap_writing, unmap_reading,
  on_data_changed,
}

pub record ReadingOpaque : Type 0 where
  pub bytes : List ℕ
  pub size : ℕ
  pub total_written : ℕ

abbrev pub new_opaque : ReadingOpaque
new_opaque = record { bytes = []; size = 0; total_written = 0 }

-- size - totalWritten on a `size_t`
pub remaining : ReadingOpaque → ℕ
remaining o =
    if leb o.total_written o.size
    then o.size - o.total_written
    else o.size + 2 ^ 64 - o.total_written

-- The callback that FFmpeg reads with: the bytes that it copies, or `none` for AVERROR_EOF.
pub h264_read : ReadingOpaque → ℕ → ReadingOpaque × Option (List ℕ)
h264_read o size =
    if nat_beq o.total_written o.size
    then (o, none)
    else if leb size (remaining o)
    then (
      record o { total_written = o.total_written + size },
      some (take size (drop o.total_written o.bytes)),
    )
    else (
      record o { total_written = o.size },
      some (take (remaining o) (drop o.total_written o.bytes)),
    )

-- A call of av_read_frame: the sizes that it reads with, and whether it succeeds.
pub record Frame : Type 0 where
  pub sizes : List ℕ
  pub is_read : Bool

pub copied : Option (List ℕ) → List ℕ
copied none = []
copied (some copy) = copy

-- What av_read_frame has of the raw buffer by reads of these sizes.
pub reads : List ℕ → ReadingOpaque → ReadingOpaque × List ℕ
reads [] o = (o, [])
reads (n ∷ ns) o =
    let (p, got) = h264_read o n in let (q, more) = reads ns p in (q, copied got ++ more)

pub record Demuxer (P C : Type 0) : Type 0 where
  pub reading_opaque : ReadingOpaque
  pub out : DataPipe P C

-- What the listener of the input comes to: it waits for a permit, throws, is still in its loop when the
-- answers are at their end, or ends, with the input, the demuxer and the calls of its own listeners.
pub data Demuxed (T D P C : Type 0) : Type 0 where
  waiting thrown in_loop : Demuxed T D P C
  ended : DataPipe T D → Demuxer P C → List (Call P C) → Demuxed T D P C

pub init : {P C : Type 0} → DataPipe P C → Demuxer P C
init out = record { reading_opaque = new_opaque; out = out }

-- start(in), with the counter of the indices of listeners; the answer of onDataChanged is dropped.
pub start : {T D : Type 0} → D → ℕ → DataPipe T D → DataPipe T D × ℕ
start callback index input = on_data_changed callback index input

module _ {T D P C : Type 0} where
  -- unmapWriting at the end of the listener
  pub end_write : ℕ → Bool → DataPipe T D → ReadingOpaque → DataPipe P C → Demuxed T D P C
  end_write subpipe notify input o out =
      let (q, calls) = unmap_writing subpipe notify out in
      ended input (record { reading_opaque = o; out = q }) calls

  -- The loop of the listener: each round gives back the index of the input.
  pub rounds : ℕ → ℕ → List Frame → DataPipe T D → ReadingOpaque → DataPipe P C → Demuxed T D P C
  rounds index subpipe [] input o out = in_loop
  rounds index subpipe (f ∷ fs) input o out =
      let p = (reads f.sizes o).0 in
      let returned = unmap_reading index input in
      let rest = rounds index subpipe fs returned p out in
      if not f.is_read
      then end_write subpipe false returned p out
      else if nat_beq p.total_written p.size
      then end_write subpipe true returned p out
      else rest

  -- The listener, on a raw buffer and the input that it is an index of.
  pub on_raw : List ℕ → ℕ → ℕ → List Frame → DataPipe T D → Demuxer P C → Demuxed T D P C
  on_raw raw size index frames input d = elim (try_hold_for_writing d.out) [
    | overflow ↦ waiting
    | logic_error ↦ thrown
    | held t i out ↦
        rounds index i frames input (record { bytes = raw; size = size; total_written = 0 }) out
  ]
