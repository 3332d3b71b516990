-- ===== src/Media/RtpPacketizer.antt =====
-- lib/media/rtppacketizer.cpp: the packetizer between a pipe of packets, which it reads, and a pipe of
-- raw chunks, which it writes. Pipes that it reads are numbers; what it does to them, and to the chunk
-- that it fills, is an effect. FFmpeg's answers are arguments, and the set-up of its contexts in the
-- constructor is left out. `none` is the `std::logic_error` of a pipe.
pub mod Stops
mod Tests
use chat_up.Base.{
  ℕ, Bool, true, false, Option, none, some, List, [], ◌∷◌, ◌++◌, if◌then◌else◌, ◌&&◌,
}
use chat_up.Media.DataPipe
use chat_up.Media.DataPipe.{
  DataPipe, Call, overflow, logic_error, held, try_hold_for_writing, unmap_writing,
}

pub record RtpPacketizer (R C : Type 0) : Type 0 where
  pub out : DataPipe R C
  pub input : Option ℕ
  pub is_started : Bool
  pub listener_index : Option ℕ

pub data Effect (R : Type 0) : Type 0 where
  listened : ℕ → Effect R
  listener_removed : ℕ → ℕ → Effect R
  filled : R → ℕ → Effect R
  given_back : ℕ → ℕ → Effect R

-- A packetizer, its effects and the calls of the listeners of its output.
pub record Packed (R C : Type 0) : Type 0 where
  pub packetizer : RtpPacketizer R C
  pub effects : List (Effect R)
  pub calls : List (Call R C)

removal : {R : Type 0} → Option ℕ → Option ℕ → List (Effect R)
removal (some i) (some p) = listener_removed p i ∷ []
removal none p = []
removal (some i) none = []

module _ {R C : Type 0} where
  -- RtpPacketizer(config), with the chunks of the output
  pub init : List R → RtpPacketizer R C
  init chunks = record {
    out = DataPipe.init chunks;
    input = none;
    is_started = false;
    listener_index = none;
  }

  -- start(input): `header` is whether `avformat_write_header` succeeds, `index` the new listener's
  pub start : ℕ → Bool → ℕ → RtpPacketizer R C → RtpPacketizer R C × List (Effect R) × Bool
  start p header index z =
      if header
      then (
        record z { input = some p; is_started = true; listener_index = some index },
        listened p ∷ [],
        true,
      )
      else (z, [], false)

  -- stop(), which is all that the destructor does to the pipes
  pub stop : RtpPacketizer R C → RtpPacketizer R C × List (Effect R)
  unfolding removal
  stop z = (record z { is_started = false }, removal z.listener_index z.input)

  -- write_packaged(op, cbuf, size)
  pub write_packaged : ℕ → RtpPacketizer R C → Option (Packed R C)
  write_packaged size z = elim (try_hold_for_writing z.out) [
    | overflow ↦ some (record { packetizer = z; effects = []; calls = [] })
    | logic_error ↦ none
    | held t i o ↦
        let (q, cs) = unmap_writing i true o in
        some
          (record { packetizer = record z { out = q }; effects = filled t size ∷ []; calls = cs })
  ]

  after : Packed R C → Option (Packed R C) → Option (Packed R C)
  after first none = none
  after first (some rest) =
      some
        (record rest { effects = first.effects ++ rest.effects; calls = first.calls ++ rest.calls })

  -- What `av_interleaved_write_frame` writes, and then unmapReading(index) of the pipe of the packet.
  pub write_frame : ℕ → ℕ → List ℕ → RtpPacketizer R C → Option (Packed R C)
  unfolding write_packaged after
  write_frame p index [] z =
      some (record { packetizer = z; effects = given_back p index ∷ []; calls = [] })
  write_frame p index (size ∷ sizes) z = elim (write_packaged size z) [
    | none ↦ none
    | some first ↦ after first (write_frame p index sizes first.packetizer)
  ]

  -- The listener that start(p) registers: whether the packet is there and the pipe not yet destroyed.
  pub on_packet : ℕ → Bool → Bool → ℕ → List ℕ → RtpPacketizer R C → Option (Packed R C)
  unfolding write_frame
  on_packet p has_packet is_alive index sizes z =
      if has_packet && is_alive
      then write_frame p index sizes z
      else some (record { packetizer = z; effects = []; calls = [] })
