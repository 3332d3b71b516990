-- ===== src/Media/SinkConnector.antt =====
-- lib/media/media.cpp: the connector between a pipe of frames and a video sink. Pipes and sinks are
-- given by numbers, and a null pointer is `none`. What `onDataChanged` returns is an argument. The
-- frames themselves are left out; a `pipeIndex` of -1 is `none`.
pub mod Frames
mod Tests
use chat_up.Base.{
  ℕ, Bool, true, false, ◌&&◌, not, Option, none, some, List, [], ◌∷◌, ◌++◌, ℤ, pos, negsuc, nat_beq,
  if◌then◌else◌,
}

pub record SinkConnector : Type 0 where
  pub current : Option ℕ
  pub prev : Option ℕ
  pub listener_index : ℤ
  pub sink : Option ℕ
  pub input : Option ℕ

pub data Effect : Type 0 where
  listened : ℕ → Effect
  listener_removed : ℕ → ℤ → Effect
  frame_shown : ℕ → ℕ → Effect
  blank_shown : ℕ → Effect
  unmapped : ℕ → ℕ → Effect

-- The connector after a call and what the call does. `none` reads a null pointer.
abbrev pub Outcome : Type 0
Outcome = Option (SinkConnector × List Effect)

pub init : SinkConnector
init = record { current = none; prev = none; listener_index = negsuc 0; sink = none; input = none }

pub drain : SinkConnector → Outcome
drain c = elim c.sink [
  | none ↦ none
  | some s ↦ some (record c { current = none; prev = none }, blank_shown s ∷ [])
]

abbrev pub has_listener : ℤ → Bool
has_listener (pos n) = true
has_listener (negsuc n) = false

-- The `if` of `close`.
leave : SinkConnector → SinkConnector × List Effect
leave c = elim c.input [
  | none ↦ (c, [])
  | some p ↦
      if has_listener c.listener_index
      then (record c { input = none }, listener_removed p c.listener_index ∷ [])
      else (c, [])
]

-- Effects that come before those of an outcome.
abbrev after : List Effect → Outcome → Outcome
after fx none = none
after fx (some (c, gx)) = some (c, fx ++ gx)

pub close : SinkConnector → Outcome
unfolding leave drain
close c = let (left, fx) = leave c in after fx (drain left)

abbrev pub same : Option ℕ → Option ℕ → Bool
same none none = true
same (some a) (some b) = nat_beq a b
same none (some b) = false
same (some a) none = false

abbrev pub is_set : Option ℕ → Bool
is_set none = false
is_set (some a) = true

-- establish(), where both pointers are set
establish : ℕ → SinkConnector → SinkConnector × List Effect
establish listener c = elim c.input [
  | none ↦ (c, [])
  | some p ↦ (record c { listener_index = pos listener }, listened p ∷ [])
]

-- The end of both `connect`: establish if both pointers are set.
try_establish : ℕ → SinkConnector → SinkConnector × List Effect
unfolding establish
try_establish listener c = if is_set c.input && is_set c.sink then establish listener c else (c, [])

-- Their beginning: close if both pointers are set.
try_close : SinkConnector → Outcome
unfolding close
try_close c = if is_set c.input && is_set c.sink then close c else some (c, [])

-- connect(std::shared_ptr<FramePipe>)
pub connect_pipe : ℕ → Option ℕ → SinkConnector → Outcome
unfolding try_close try_establish
connect_pipe listener fr c = if same c.input fr then some (c, []) else elim (try_close c) [
  | none ↦ none
  | some (d, fx) ↦
      let (e, gx) = try_establish listener (record d { input = fr }) in some (e, fx ++ gx)
]

-- connect(QVideoSink*)
pub connect_sink : ℕ → Option ℕ → SinkConnector → Outcome
unfolding try_close try_establish
connect_sink listener s c = if same s c.sink then some (c, []) else elim (try_close c) [
  | none ↦ none
  | some (d, fx) ↦
      let (e, gx) = try_establish listener (record d { sink = s }) in some (e, fx ++ gx)
]

give_back : Option ℕ → Option ℕ → Option (List Effect)
give_back input none = some []
give_back none (some j) = none
give_back (some p) (some j) = some (unmapped p j ∷ [])

-- The callback that `establish` registers.
pub on_frame : ℕ → SinkConnector → Outcome
unfolding give_back
on_frame index c = elim c.sink [
  | none ↦ none
  | some s ↦ after (frame_shown s index ∷ []) (elim (give_back c.input c.prev) [
    | none ↦ none
    | some fx ↦ some (record c { prev = some index; current = c.prev }, fx)
  ])
]
