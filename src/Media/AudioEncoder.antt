-- ===== src/Media/AudioEncoder.antt =====
-- lib/media/encoder.cpp: the audio encoder between a pipe of frames, which it reads, and a pipe of
-- packets, which it writes. A frame is sent to the codec in chunks of `frame_size` samples. The input is
-- a number; what the encoder does to it is an effect. FFmpeg's answers are arguments.
pub mod Samples
pub mod Failures
mod Tests
use chat_up.Base.{
  ℕ, zero, suc, ◌+◌, ◌-◌, Bool, true, false, not, ◌&&◌, ◌||◌, Option, none, some, List, [], ◌∷◌,
  ◌++◌, ltb, leb, nat_beq, if◌then◌else◌,
}
use chat_up.Media.DataPipe
use chat_up.Media.DataPipe.{
  DataPipe, Call, overflow, logic_error, held, try_hold_for_writing, unmap_writing,
}
use chat_up.Media.VideoEncoder.{Effect, listened, given_back, removal, next_word}

-- The context of the codec is its `frame_size`.
pub record AudioEncoder (P C : Type 0) : Type 0 where
  pub pts : ℕ
  pub dts : ℕ
  pub is_started : Bool
  pub out : DataPipe P C
  pub context : Option ℕ
  pub has_swr : Bool
  pub input : Option ℕ
  pub listener_index : Option ℕ

-- What FFmpeg answers for one chunk: whether the codec takes it, how many packets come before the codec
-- has no more or fails, and whether the conversion of the next chunk succeeds.
pub record Answer : Type 0 where
  pub is_sent : Bool
  pub packets : ℕ
  pub is_converted : Bool

-- What a frame has come to: the encoder, what was given back, how many samples the converter was asked for
-- before each chunk that was sent, and the calls of the listeners of the output. The `nb_samples` of a
-- chunk itself is always the frame size of the codec.
pub record Encoded (P C : Type 0) : Type 0 where
  pub encoder : AudioEncoder P C
  pub effects : List Effect
  pub asked : List ℕ
  pub calls : List (Call P C)

-- How the loop over the chunks ends: by its test, by a `return`, not within the fuel, or by the
-- `std::logic_error` of the output.
pub data Ending (P C : Type 0) : Type 0 where
  finished broken_off : Encoded P C → Ending P C
  out_of_fuel thrown : Ending P C

-- How the loop over the packets of a chunk ends: with no more packets, or without room for one.
pub data Drained (P C : Type 0) : Type 0 where
  drained overflowed : AudioEncoder P C → List (Call P C) → Drained P C
  drain_thrown : Drained P C

-- checkSampleFormat and checkSampleRate: a null codec has none; a list ends before its terminator
pub check_listed : Option (List ℕ) → ℕ → Bool
check_listed none x = false
check_listed (some []) x = false
check_listed (some (y ∷ ys)) x = nat_beq y x || check_listed (some ys) x

-- `_cdc->sample_fmts[0]` where the format of the source is not among the formats of the codec
pub required_format : List ℕ → ℕ → Option ℕ
unfolding check_listed
required_format [] format = none
required_format (f ∷ fs) format =
    if check_listed (some (f ∷ fs)) format then some format else some f

abbrev pub required_sample_rate : ℕ
required_sample_rate = 24000

-- std::min(a, b)
abbrev pub min : ℕ → ℕ → ℕ
min a b = if ltb b a then b else a

module _ {P C : Type 0} where
  -- AbstractEncoder() and initialize(cctx, cdc), with the packets of the output
  pub init : List P → ℕ → AudioEncoder P C
  init packets frame_size = record {
    pts = 0;
    dts = 0;
    is_started = false;
    out = DataPipe.init packets;
    context = some frame_size;
    has_swr = false;
    input = none;
    listener_index = none;
  }

  with_swr : Bool → AudioEncoder P C → AudioEncoder P C
  with_swr true e = record e { has_swr = true }
  with_swr false e = e

  -- start(input, config): a converter is made where format or rate differ; `is_made` is what FFmpeg
  -- answers to that, `opens` what it answers to the rest, and `index` what `onDataChanged` does
  pub start :
      ℕ → ℕ → ℕ → ℕ → Bool → Bool → ℕ → AudioEncoder P C → AudioEncoder P C × List Effect × Bool
  unfolding with_swr
  start p format required rate is_made opens index e =
      let differs = not (nat_beq format required) || not (nat_beq rate required_sample_rate) in
      if differs && not is_made
      then (e, [], false)
      else let made = with_swr differs e in
        if opens
        then (
          record made { input = some p; is_started = true; listener_index = some index },
          listened p ∷ [],
          true,
        )
        else (made, [], false)

  -- close()
  pub close : AudioEncoder P C → AudioEncoder P C × List Effect
  unfolding removal
  close e = (
    elim e.input [
      | none ↦ record e { context = none; is_started = false }
      | some p ↦ elim e.listener_index [
        | none ↦ record e { context = none; is_started = false }
        | some i ↦ record e {
          context = none;
          is_started = false;
          input = none;
          listener_index = none;
        }
      ]
    ],
    removal e.input e.listener_index,
  )

  after_calls : List (Call P C) → Drained P C → Drained P C
  after_calls cs (drained e ds) = drained e (cs ++ ds)
  after_calls cs (overflowed e ds) = overflowed e (cs ++ ds)
  after_calls cs drain_thrown = drain_thrown

  -- The loop over the packets of a chunk; the packet held when the codec has no more goes back unread.
  pub receive : ℕ → AudioEncoder P C → Drained P C
  unfolding after_calls
  receive zero e = elim (try_hold_for_writing e.out) [
    | overflow ↦ overflowed e []
    | logic_error ↦ drain_thrown
    | held t i o ↦ let (q, cs) = unmap_writing i false o in drained (record e { out = q }) cs
  ]
  receive (suc n) e = elim (try_hold_for_writing e.out) [
    | overflow ↦ overflowed e []
    | logic_error ↦ drain_thrown
    | held t i o ↦
        let (q, cs) = unmap_writing i true o in
        after_calls cs
          (receive n (record e { pts = next_word e.pts; dts = next_word e.dts; out = q }))
  ]

  -- avcodec_send_frame, and the packets if it succeeds
  pub send_chunk : Answer → AudioEncoder P C → Drained P C
  unfolding receive
  send_chunk a e = if a.is_sent then receive a.packets e else drained e []

  -- A chunk, for which that many samples were asked, that was sent before the rest.
  pub after_chunk : ℕ → List (Call P C) → Ending P C → Ending P C
  after_chunk size cs (finished r) =
      finished (record r { asked = size ∷ r.asked; calls = cs ++ r.calls })
  after_chunk size cs (broken_off r) =
      broken_off (record r { asked = size ∷ r.asked; calls = cs ++ r.calls })
  after_chunk size cs out_of_fuel = out_of_fuel
  after_chunk size cs thrown = thrown

  abbrev pub nothing_more : List Effect → AudioEncoder P C → Encoded P C
  nothing_more fx e = record { encoder = e; effects = fx; asked = []; calls = [] }

  -- A round of the loop over the chunks, with the rounds after it. A conversion that fails gives the
  -- frame back.
  pub take_round : ℕ → ℕ → ℕ → Bool → Drained P C → (AudioEncoder P C → Ending P C) → Ending P C
  unfolding after_chunk
  take_round p index size is_converted drain_thrown rest = thrown
  take_round p index size is_converted (overflowed e cs) rest =
      after_chunk size cs (broken_off (nothing_more [] e))
  take_round p index size false (drained e cs) rest =
      after_chunk size cs (broken_off (nothing_more (given_back p index ∷ []) e))
  take_round p index size true (drained e cs) rest = after_chunk size cs (rest e)

  module _ (p index frame_size samples : ℕ) (answers : ℕ → Answer) where
    -- The loop over the chunks of a frame: `k` chunks are sent, `size` samples were asked for the next one,
    -- `encoded` and `convert` are samplesEncoded and convertSamples. `encoded + convert` is at most
    -- `samples` in every round, so the subtraction is that of `int`.
    pub rounds : ℕ → ℕ → ℕ → ℕ → ℕ → AudioEncoder P C → Ending P C
    unfolding send_chunk take_round
    rounds zero k size encoded convert e =
        if ltb encoded samples then out_of_fuel else finished (nothing_more [] e)
    rounds (suc fuel) k size encoded convert e = elim (ltb encoded samples) [
      | false ↦ finished (nothing_more [] e)
      | true ↦
          let next = min frame_size (samples - (encoded + convert)) in
          take_round p index size (answers k).is_converted (send_chunk (answers k) e)
            (rounds fuel (suc k) next (encoded + convert) next)
    ]

  -- unmapReading(index) of the input, before the rest
  pub give_frame : ℕ → ℕ → Ending P C → Ending P C
  give_frame p index (finished r) = finished (record r { effects = given_back p index ∷ r.effects })
  give_frame p index (broken_off r) =
      broken_off (record r { effects = given_back p index ∷ r.effects })
  give_frame p index out_of_fuel = out_of_fuel
  give_frame p index thrown = thrown

  -- The listener that start(p) registers, for a frame of that many samples. `none` converts without a
  -- converter, which is undefined behaviour.
  pub on_frame : ℕ → ℕ → ℕ → (ℕ → Answer) → AudioEncoder P C → Option (Ending P C)
  unfolding rounds give_frame
  on_frame p index samples answers e = elim e.context [
    | none ↦ some (broken_off (nothing_more [] e))
    | some frame_size ↦
        if e.has_swr
        then some (
            give_frame p index
              (rounds p index frame_size samples answers (suc samples) 0 frame_size frame_size 0 e))
        else none
  ]
