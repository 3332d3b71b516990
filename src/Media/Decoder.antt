-- ===== src/Media/Decoder.antt =====
-- lib/media/decoder.cpp: a decoder between a pipe of packets, which it reads, and a pipe of frames,
-- which it writes. The input is a number; what the decoder does to it is an effect. FFmpeg's answers
-- are arguments. Timestamps are left out, and a packet is never null. `none` reads a null input, or is
-- the `std::logic_error` of a pipe.
pub mod Held
mod Tests
use chat_up.Base.{
  ℕ, zero, suc, Bool, true, false, Option, none, some, List, [], ◌∷◌, ◌++◌, map, if◌then◌else◌,
}
use chat_up.Media.DataPipe.{
  DataPipe, Call, overflow, logic_error, held, try_hold_for_writing, unmap_writing,
}

pub record Decoder (F C : Type 0) : Type 0 where
  pub is_initialized : Bool
  pub input : Option ℕ
  pub input_listen_index : Option ℕ
  pub out : DataPipe F C
  pub holding_index : List ℕ

pub data Effect : Type 0 where
  listened : ℕ → Effect
  listener_removed : ℕ → ℕ → Effect
  given_back : ℕ → ℕ → Effect

-- What `avcodec_receive_frame` answers behind the frames: that it needs another packet or is at its
-- end, or another error.
pub data Ending : Type 0 where
  again failed : Ending

-- A decoder after a packet, what it has given back, the listeners' calls for its frames, and whether
-- the output had no permit on the way.
pub record Decoded (F C : Type 0) : Type 0 where
  pub decoder : Decoder F C
  pub effects : List Effect
  pub calls : List (Call F C)
  pub overflowed : Bool

give_front : ℕ → ℕ → List ℕ → List Effect
give_front p i [] = []
give_front p i (_ ∷ is) = given_back p i ∷ give_front p i is

-- The loop that gives back what is held: each round gives back `front()`, and `pop()` of the `QStack`
-- takes away the last one, so the front stays.
pub give_all : ℕ → List ℕ → List Effect
unfolding give_front
give_all p [] = []
give_all p (i ∷ is) = give_front p i (i ∷ is)

module _ {F C : Type 0} where
  -- start(input); `index` is what `onDataChanged` answers
  pub start : ℕ → ℕ → Decoder F C → Decoder F C × List Effect × Bool
  start p index d =
      if d.is_initialized
      then (record d { input = some p; input_listen_index = some index }, listened p ∷ [], true)
      else (d, [], false)

  -- stop()
  pub stop : Decoder F C → Decoder F C × List Effect
  stop d = elim d.input [
    | none ↦ (d, [])
    | some p ↦ elim d.input_listen_index [
      | none ↦ (d, [])
      | some i ↦ (record d { input = none }, listener_removed p i ∷ [])
    ]
  ]

  -- The end of the loop over the frames: the frame that was held for it goes back unread, and a packet
  -- of which more is to come is held.
  finish : ℕ → Ending → ℕ → Decoder F C → Decoded F C
  finish index again i d =
      let (o, calls) = unmap_writing i false d.out in
      record {
        decoder = record d { out = o; holding_index = d.holding_index ++ index ∷ [] };
        effects = [];
        calls = calls;
        overflowed = false;
      }
  finish index failed i d =
      let (o, calls) = unmap_writing i false d.out in
      record { decoder = record d { out = o }; effects = []; calls = calls; overflowed = false }

  -- What comes before the rest of the loop.
  before : List Effect → List (Call F C) → Option (Decoded F C) → Option (Decoded F C)
  before fx cs none = none
  before fx cs (some r) = some (record r { effects = fx ++ r.effects; calls = cs ++ r.calls })

  -- The loop over the frames of a packet: the codec gives `n` frames and then its ending.
  receive : ℕ → ℕ → Ending → ℕ → Decoder F C → Option (Decoded F C)
  unfolding before finish give_all
  receive p index end zero d = elim (try_hold_for_writing d.out) [
    | overflow ↦ some (record { decoder = d; effects = []; calls = []; overflowed = true })
    | logic_error ↦ none
    | held t i o ↦ some (finish index end i (record d { out = o }))
  ]
  receive p index end (suc n) d = elim (try_hold_for_writing d.out) [
    | overflow ↦ some (record { decoder = d; effects = []; calls = []; overflowed = true })
    | logic_error ↦ none
    | held t i o ↦
        let (q, cs) = unmap_writing i true o in
        before (give_all p d.holding_index) cs
          (receive p index end n (record d { out = q; holding_index = [] }))
  ]

  -- The task that the listener of the input starts; `sent` says whether the codec takes the packet.
  pub decode : ℕ → Bool → ℕ → Ending → Decoder F C → Option (Decoded F C)
  unfolding receive
  decode index sent n end d = elim d.input [
    | none ↦ none
    | some p ↦
        if sent
        then receive p index end n d
        else some (record {
          decoder = d;
          effects = given_back p index ∷ [];
          calls = [];
          overflowed = false;
        })
  ]
