-- ===== src/Media/VideoEncoder.antt =====
-- lib/media/encoder.cpp: the video encoder between a pipe of frames, which it reads, and a pipe of
-- packets, which it writes. The input is a number; what the encoder does to it is an effect. FFmpeg's
-- answers are arguments, and the codec's settings and the rescaling of frames are left out. `none`
-- reads a null input, or is the `std::logic_error` of a pipe.
pub mod Stamps
mod Tests
use chat_up.Base.{
  ℕ, zero, suc, ◌+◌, ◌%◌, ◌^◌, Bool, true, false, Option, none, some, List, [], ◌∷◌, ◌++◌,
  if◌then◌else◌,
}
use chat_up.Media.DataPipe
use chat_up.Media.DataPipe.{
  DataPipe, Call, overflow, logic_error, held, try_hold_for_writing, unmap_writing,
}

pub record VideoEncoder (P C : Type 0) : Type 0 where
  pub pts : ℕ
  pub dts : ℕ
  pub is_started : Bool
  pub out : DataPipe P C
  pub has_context : Bool
  pub input : Option ℕ
  pub listener_index : Option ℕ

pub data Effect : Type 0 where
  listened : ℕ → Effect
  listener_removed : ℕ → ℕ → Effect
  given_back : ℕ → ℕ → Effect

-- The presentation and the decoding time that a packet goes out with.
pub record Stamp : Type 0 where
  pub pts : ℕ
  pub dts : ℕ

-- An encoder after a frame, what it has given back, the stamps of the packets that it has written, and
-- the calls of their listeners.
pub record Encoded (P C : Type 0) : Type 0 where
  pub encoder : VideoEncoder P C
  pub effects : List Effect
  pub stamps : List Stamp
  pub calls : List (Call P C)

-- `++` on a `size_t`
abbrev pub next_word : ℕ → ℕ
next_word n = (n + 1) % 2 ^ 64

unfoldable pub removal : Option ℕ → Option ℕ → List Effect
removal (some p) (some i) = listener_removed p i ∷ []
removal none i = []
removal (some p) none = []

module _ {P C : Type 0} where
  -- AbstractEncoder() and initialize(cctx, cdc), with the packets of the output
  pub init : List P → VideoEncoder P C
  init packets = record {
    pts = 0;
    dts = 0;
    is_started = false;
    out = DataPipe.init packets;
    has_context = true;
    input = none;
    listener_index = none;
  }

  -- start(input, config): `opens` is what `avcodec_open2` answers, `index` what `onDataChanged` does
  pub start : ℕ → Bool → ℕ → VideoEncoder P C → VideoEncoder P C × List Effect × Bool
  start p opens index e =
      if opens
      then (
        record e { input = some p; is_started = true; listener_index = some index },
        listened p ∷ [],
        true,
      )
      else (e, [], false)

  -- close()
  pub close : VideoEncoder P C → VideoEncoder P C × List Effect
  unfolding removal
  close e = (
    record e {
      listener_index = elim e.input [ none ↦ e.listener_index | some _ ↦ none ];
      has_context = false;
      is_started = false;
    },
    removal e.input e.listener_index,
  )

  -- A packet that is written before the rest of the loop.
  written : Stamp → List (Call P C) → Option (Encoded P C) → Option (Encoded P C)
  written stamp cs none = none
  written stamp cs (some r) = some (record r { stamps = stamp ∷ r.stamps; calls = cs ++ r.calls })

  -- The loop over the packets of a frame: the codec gives `n` packets, and then an error, or that it
  -- needs another frame, on both of which the packet that was held for it goes back unread.
  pub receive : ℕ → VideoEncoder P C → Option (Encoded P C)
  unfolding written
  receive zero e = elim (try_hold_for_writing e.out) [
    | overflow ↦ some (record { encoder = e; effects = []; stamps = []; calls = [] })
    | logic_error ↦ none
    | held t i o ↦
        let (q, cs) = unmap_writing i false o in
        some (record { encoder = record e { out = q }; effects = []; stamps = []; calls = cs })
  ]
  receive (suc n) e = elim (try_hold_for_writing e.out) [
    | overflow ↦ some (record { encoder = e; effects = []; stamps = []; calls = [] })
    | logic_error ↦ none
    | held t i o ↦
        let stamp : Stamp = record { pts = next_word e.pts; dts = next_word e.dts } in
        let (q, cs) = unmap_writing i true o in
        written stamp cs (receive n (record e { pts = stamp.pts; dts = stamp.dts; out = q }))
  ]

  -- unmapReading(index) of the input, before the rest
  read_frame : ℕ → ℕ → Option (Encoded P C) → Option (Encoded P C)
  read_frame p index none = none
  read_frame p index (some r) = some (record r { effects = given_back p index ∷ r.effects })

  -- The listener of the input: `sent` says whether the codec takes the frame.
  pub on_frame : ℕ → Bool → ℕ → VideoEncoder P C → Option (Encoded P C)
  unfolding read_frame
  on_frame index sent n e =
      let nothing : Encoded P C = record { encoder = e; effects = []; stamps = []; calls = [] } in
      if e.has_context
      then elim e.input [
        | none ↦ none
        | some p ↦ read_frame p index (if sent then receive n e else some nothing)
      ]
      else some nothing
