-- ===== src/Media/Capture/Failed.antt =====
-- lib/media/camerainput.cpp and microphoneinput.cpp: a read that fails.
use chat_up.Base.{
  ℕ, zero, suc, replicate, ◌+◌, ◌≡◌, ◌∙◌, refl, sym, Bool, true, false, some, List, [], ◌∷◌, ap,
  get_elem?, get_elem?-set, set-set, set, arith,
}
use chat_up.Media.DataPipe.{SubPipe, take_free, unmap_writing}
use chat_up.Media.DataPipe.Quiet.{
  quiet, take_free-undo, unmap_writing-quiet, try_hold_for_writing-quiet,
}
use chat_up.Media.Capture.{
  Round, going, ended, thrown, camera_round, after_calls, thread_func, microphone_round,
}

one : (n : ℕ) → n + 1 ≡ suc n
one n = omega arith

module _ {P C : Type 0} where
  -- The index that was held is unmapped once, and once more.
  unmap_writing-free :
      (i n : ℕ) (b : Bool) (rs ss : List (SubPipe P)) (s : SubPipe P)
      → get_elem? rs i ≡ some s
      → set rs i (record s { is_free = true }) ≡ ss
      → unmap_writing {C = C} i b (quiet n rs) ≡ (quiet (suc n) ss, [])
  unmap_writing-free i n b rs ss s got back =
      unmap_writing-quiet i n b rs s got
      ∙ ap (λ (m, ys). (quiet m ys, []))
          (ap (λ m. (m, set rs i (record s { is_free = true }))) (one n)
            ∙ ap (λ ys. (suc n, ys)) back)

  unmap_writing-again :
      (i n : ℕ) (rs ss : List (SubPipe P)) (s : SubPipe P)
      → get_elem? rs i ≡ some s
      → set rs i (record s { is_free = true }) ≡ ss
      → unmap_writing {C = C} i true (quiet n ss) ≡ (quiet (suc n) ss, [])
  unmap_writing-again i n rs ss s got back =
      let f = record s { is_free = true } in
      unmap_writing-free i n true ss ss f
        (ap (λ ys. get_elem? ys i) (sym back) ∙ get_elem?-set rs i s f got)
        (ap (λ ys. set ys i f) (sym back) ∙ set-set rs i f f ∙ back)

  -- On an output that nobody listens to, with a permit and a free buffer: a read that fails ends the
  -- thread of the microphone and leaves the output as it was; it leaves the thread of the camera going,
  -- and the output with its buffers as they were and one permit more.
  camera_round-microphone_round :
      (n i : ℕ) (t : P) (ss rs : List (SubPipe P))
      → take_free ss ≡ some (t, i, rs)
      → (camera_round {C = C} false (quiet (suc n) ss) ≡ going (quiet (suc (suc n)) ss) [])
        × (microphone_round {C = C} false (quiet (suc n) ss) ≡ ended (quiet (suc n) ss) [])
  unfolding camera_round microphone_round
  camera_round-microphone_round n i t ss rs e =
      let (s, got, back) = take_free-undo ss rs t i e in
      let hold = try_hold_for_writing-quiet {C = C} i n ss rs t e in
      let first : (b : Bool) → unmap_writing {C = C} i b (quiet n rs) ≡ (quiet (suc n) ss, []) =
        λ b. unmap_writing-free i n b rs ss s got back in
      let second : unmap_writing {C = C} i true (quiet (suc n) ss) ≡ (quiet (suc (suc n)) ss, []) =
        unmap_writing-again i (suc n) rs ss s got back in
      (
        rw (camera_round, hold, first false, second) refl,
        rw (microphone_round, hold, first false) refl,
      )

  after_calls-none : (r : Round P C) → after_calls [] r ≡ r
  unfolding after_calls
  after_calls-none (going p ds) = refl
  after_calls-none (ended p ds) = refl
  after_calls-none thrown = refl

  camera-permits :
      (k n i : ℕ) (t : P) (ss rs : List (SubPipe P))
      → take_free ss ≡ some (t, i, rs)
      → thread_func {C = C} camera_round (replicate k false) (quiet (suc n) ss)
        ≡ ended (quiet (k + suc n) ss) []
  unfolding thread_func
  camera-permits zero n i t ss rs e = ap (λ m. ended (quiet m ss) []) (omega arith)
  camera-permits (suc k) n i t ss rs e =
      rw (thread_func, (camera_round-microphone_round n i t ss rs e).0)
        (after_calls-none _
          ∙ camera-permits k (suc n) i t ss rs e
          ∙ ap (λ m. ended (quiet m ss) []) (omega arith))

  -- On an output that nobody listens to, with a permit and a free buffer: the thread of the camera whose
  -- k reads all fail goes through k rounds, and at their end the output has its buffers as they were and
  -- k permits more. The thread of the microphone ends at the first read that fails, and the output is as
  -- it was, permits included.
  pub thread_func-permits :
      (k n i : ℕ) (t : P) (ss rs : List (SubPipe P)) (later : List Bool)
      → take_free ss ≡ some (t, i, rs)
      → (thread_func {C = C} camera_round (replicate k false) (quiet (suc n) ss)
          ≡ ended (quiet (k + suc n) ss) [])
        × (thread_func {C = C} microphone_round (false ∷ later) (quiet (suc n) ss)
            ≡ ended (quiet (suc n) ss) [])
  unfolding thread_func
  thread_func-permits k n i t ss rs later e = (
    camera-permits k n i t ss rs e,
    rw (thread_func, (camera_round-microphone_round n i t ss rs e).1) refl,
  )
