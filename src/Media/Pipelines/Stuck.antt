-- ===== src/Media/Pipelines/Stuck.antt =====
-- lib/media/pipelines.cpp: what can become of `open` when its task is fast.
use chat_up.Base.{ℕ, ◌≡◌, ◌≢◌, ◌∙◌, refl, some, arith}
use chat_up.Media.Pipelines.Opening.{
  Caller, testing, assigned, launched, returned, ended, System, Step, find, launch, assign, return,
  throw, end, again, Reach, here, next,
}

-- The future of a task that has ended is kept, the caller is past its assignment, and returns it.
record IsStuck (f : ℕ) (s : System) : Type 0 where
  kept : s.opening_future ≡ some f
  over : s.worker ≡ ended f
  past : (g : ℕ) → s.caller ≢ launched g
  answers : (g : ℕ) → s.caller ≡ returned g → g ≡ f

-- A step to another place of the caller, which is no launch and returns at most that future.
moved :
    {f : ℕ} {s : System} (c : Caller)
    → IsStuck f s
    → ((g : ℕ) → c ≢ launched g)
    → ((g : ℕ) → c ≡ returned g → g ≡ f)
    → IsStuck f (record s { caller = c }) × (s.tasks ≡ s.tasks)
moved c h past answers =
    (record { kept = h.kept; over = h.over; past = past; answers = answers }, refl)

Step-IsStuck : {f : ℕ} {s t : System} → Step s t → IsStuck f s → IsStuck f t × (t.tasks ≡ s.tasks)
Step-IsStuck (find c o) h = moved assigned h (λ g e. ground arith) (λ g e. ground arith)
Step-IsStuck (launch c o) h = absurd (ground (arith, h.kept))
Step-IsStuck (assign {f = g} c) h = absurd (h.past g c)
Step-IsStuck (return {f = g} c o) h =
    moved (returned g) h (λ i e. ground arith) (λ i e. ground (arith, h.kept))
Step-IsStuck (throw c o) h = absurd (ground (arith, h.kept))
Step-IsStuck (end w) h = absurd (ground (arith, h.over))
Step-IsStuck (again c) h = moved testing h (λ g e. ground arith) (λ g e. ground arith)

Reach-IsStuck : {f : ℕ} {s t : System} → Reach s t → IsStuck f s → IsStuck f t × (t.tasks ≡ s.tasks)
Reach-IsStuck here h = (h, refl)
Reach-IsStuck (next r st) h =
    let (q, e) = Reach-IsStuck r h in let (p, d) = Step-IsStuck st q in (p, d ∙ e)

-- Where a task has ended before the caller that started it stores its future: whatever steps follow the
-- assignment, each call of `open` that returns gives this future, and no task was started since.
pub Reach-assign :
    (f g : ℕ) (s t : System)
    → s.caller ≡ launched f
    → s.worker ≡ ended f
    → Reach (record s { opening_future = some f; caller = assigned }) t
    → t.caller ≡ returned g
    → (g ≡ f) × (t.opening_future ≡ some f) × (t.tasks ≡ s.tasks)
Reach-assign f g s t c w r e =
    let start : IsStuck f (record s { opening_future = some f; caller = assigned }) = record {
      kept = refl;
      over = w;
      past = λ i x. ground arith;
      answers = λ i x. ground arith;
    } in
    let (h, n) = Reach-IsStuck r start in (h.answers g e, h.kept, n)
