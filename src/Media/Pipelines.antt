-- ===== src/Media/Pipelines.antt =====
-- lib/media/pipelines.cpp: the camera and the microphone with the decoder behind them. A device is the
-- name that it was made for; whether it opens, with which configuration, is an argument. What is done to
-- devices and decoders is an effect, but for their destruction.
pub mod Opening
pub mod Reopened
pub mod Stuck
mod Tests
use chat_up.Base.{
  Bool, true, false, Option, none, some, List, [], ◌∷◌, ◌++◌, String, string_eq, ◌==◌,
  if◌then◌else◌,
}

pub record Pipeline (C : Type 0) : Type 0 where
  pub dev : String
  -- _cam or _mic
  pub device : Option String
  -- the configuration that _decoder was made with
  pub decoder : Option C
  pub is_open : Bool

pub data Effect (C : Type 0) : Type 0 where
  device_opened device_closed : String → Effect C
  decoder_started : C → String → Effect C
  decoder_stopped : C → Effect C
  device_changed : Effect C

-- The result of the task that `open` runs: the configuration, or what it throws.
pub data Opened (C : Type 0) : Type 0 where
  opened : C → Opened C
  failed : String → Opened C

abbrev pub unknown_device : String
unknown_device = "unknown"

-- The device that is there, or a new one for the name.
made : String → Option String → String
made name none = name
made name (some d) = d

module _ {C : Type 0} where
  -- CameraPipeline() and MicrophonePipeline()
  pub init : Pipeline C
  init = record { dev = unknown_device; device = none; decoder = none; is_open = false }

  -- setCurrentDevice(dev)
  pub set_current_device : String → Pipeline C → Pipeline C × List (Effect C)
  set_current_device dev p =
      if dev == p.dev then (p, []) else (record p { dev = dev }, device_changed ∷ [])

  close_device : Option String → List (Effect C)
  close_device none = []
  close_device (some d) = device_closed d ∷ []

  stop_decoder : Option C → List (Effect C)
  stop_decoder none = []
  stop_decoder (some c) = decoder_stopped c ∷ []

  -- close()
  pub close : Pipeline C → Pipeline C × List (Effect C)
  unfolding close_device stop_decoder
  close p = (record p { is_open = false }, close_device p.device ++ stop_decoder p.decoder)

  -- if (_isOpen) close();
  close_open : Pipeline C → Pipeline C × List (Effect C)
  unfolding close
  close_open p = if p.is_open then close p else (p, [])

  -- The task of CameraPipeline::open.
  pub open_camera : Option C → Pipeline C → Pipeline C × List (Effect C) × Opened C
  unfolding close_open made
  open_camera config p =
      if p.dev == unknown_device
      then (p, [], failed "Device is not set")
      else let (q, fx) = close_open p in
        let cam = made q.dev q.device in
        let kept : Pipeline C = record q { device = some cam } in
        elim config [
          | none ↦ (kept, fx ++ device_opened cam ∷ [], failed "Cannot open camera")
          | some c ↦ (
            record kept { decoder = some c; is_open = true },
            fx ++ device_opened cam ∷ decoder_started c cam ∷ [],
            opened c,
          )
        ]

  -- The task of MicrophonePipeline::open, which makes a new device each time.
  pub open_microphone : Option C → Pipeline C → Pipeline C × List (Effect C) × Opened C
  unfolding close_open
  open_microphone config p =
      if p.dev == unknown_device
      then (p, [], failed "Device is not set")
      else let (q, fx) = close_open p in
        elim config [
          | none ↦ (q, fx ++ device_opened q.dev ∷ [], failed "Cannot open microphone")
          | some c ↦ (
            record q { device = some q.dev; decoder = some c; is_open = true },
            fx ++ device_opened q.dev ∷ decoder_started c q.dev ∷ [],
            opened c,
          )
        ]

  -- frameOutput(), the output of the decoder; `none` reads a null decoder
  pub frame_output : Pipeline C → Option C
  frame_output p = p.decoder
