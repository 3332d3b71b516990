-- ===== src/Media/Demuxer/Reads.antt =====
-- lib/media/decoder.cpp: what the reading callback of a demuxer copies.
use chat_up.Base.{
  ℕ, ◌+◌, ◌-◌, ◌≤◌, ◌<◌, ◌≡◌, ◌∙◌, refl, sym, ap, ap₂, none, some, List, [], ◌∷◌, ◌++◌, take, drop,
  length, leb, nat_beq, nat_beq_iff, Bool-cases, inl, inr, ◌⊎◌, if◌then◌else◌, sum, take_add,
  drop_add, take-all, take-nil, drop-eq_nil, length-drop, arith,
}
use chat_up.Media.Demuxer.{ReadingOpaque, remaining, h264_read, copied, reads}

-- n, or the size where n is greater
abbrev pub up_to : ℕ → ℕ → ℕ
up_to n size = if leb n size then n else size

-- A raw buffer of which at most all is read
abbrev pub IsReading : ReadingOpaque → Type 0
IsReading o = (length o.bytes ≡ o.size) × (o.total_written ≤ o.size)

pub up_to-IsReading :
    (o : ReadingOpaque) (n : ℕ)
    → IsReading o
    → IsReading (record o { total_written = up_to n o.size })
up_to-IsReading o n (long, within) = (long, ground arith)

-- The bytes behind position up_to n are those behind n.
drop-up_to :
    (n size : ℕ) (bytes : List ℕ) → length bytes ≡ size → drop (up_to n size) bytes ≡ drop n bytes
drop-up_to n size bytes long = elim (Bool-cases (leb n size)) [
  | inl f ↦ ap (λ b. drop (if b then n else size) bytes) f
  | inr f ↦
      ap (λ b. drop (if b then n else size) bytes) f
      ∙ drop-eq_nil size bytes (omega (arith, long))
      ∙ sym (drop-eq_nil n bytes (ground arith))
]

remaining-minus :
    (o : ReadingOpaque) → o.total_written ≤ o.size → remaining o ≡ o.size - o.total_written
unfolding remaining
remaining-minus o h = ground arith

h264_read-cases :
    (o : ReadingOpaque) (n : ℕ)
    → o.total_written ≤ o.size
    → ((o.total_written ≡ o.size) × (h264_read o n ≡ (o, none)))
      ⊎ ((o.total_written + n ≤ o.size)
          × (h264_read o n ≡ (
            record o { total_written = o.total_written + n },
            some (take n (drop o.total_written o.bytes)),
          )))
      ⊎ ((o.size < o.total_written + n)
          × (h264_read o n ≡ (
            record o { total_written = o.size },
            some (take (o.size - o.total_written) (drop o.total_written o.bytes)),
          )))
unfolding h264_read
h264_read-cases o n h = elim (Bool-cases (nat_beq o.total_written o.size)) [
  | inl f ↦ inl ((nat_beq_iff _ _).0 f, rw f refl)
  | inr f ↦ elim (Bool-cases (leb n (remaining o))) [
    | inl g ↦ inr (inl (let r = remaining-minus o h in ground arith, rw (f, g) refl))
    | inr g ↦
        inr (inr (let r = remaining-minus o h in ground arith, rw (f, g, remaining-minus o h) refl))
  ]
]

pub h264_read-up_to :
    (o : ReadingOpaque) (n : ℕ)
    → o.total_written ≤ o.size
    → (h264_read o n).0 ≡ record o { total_written = up_to (o.total_written + n) o.size }
h264_read-up_to o n h =
    let place : (k : ℕ)
        → k ≡ up_to (o.total_written + n) o.size
        → record o { total_written = k }
          ≡ record o { total_written = up_to (o.total_written + n) o.size } =
      λ k e. ap (λ k. record o { total_written = k }) e in
    elim (h264_read-cases o n h) [
      | inl (e, r) ↦ rw r (place o.total_written (ground arith))
      | inr (inl (e, r)) ↦ rw r (place (o.total_written + n) (ground arith))
      | inr (inr (e, r)) ↦ rw r (place o.size (ground arith))
    ]

h264_read-copied :
    (o : ReadingOpaque) (n : ℕ)
    → IsReading o
    → copied (h264_read o n).1 ≡ take n (drop o.total_written o.bytes)
unfolding copied
h264_read-copied o n (long, h) =
    let rest = length-drop o.total_written o.bytes in
    elim (h264_read-cases o n h) [
      | inl (e, r) ↦ rw r (
          sym (
            ap (take n) (drop-eq_nil o.total_written o.bytes (omega (arith, long, e)))
            ∙ take-nil n))
      | inr (inl (e, r)) ↦ rw r refl
      | inr (inr (e, r)) ↦ rw r (
          take-all _ (drop o.total_written o.bytes) (omega (arith, long, rest))
          ∙ sym (take-all n (drop o.total_written o.bytes) (omega (arith, long, rest))))
    ]

-- From one read to the next.
reads-next :
    (o : ReadingOpaque) (n m : ℕ)
    → IsReading o
    → let p = record o { total_written = up_to (o.total_written + n) o.size } in
      (record p { total_written = up_to (p.total_written + m) p.size }
        ≡ record o { total_written = up_to (o.total_written + (n + m)) o.size })
      × (take n (drop o.total_written o.bytes) ++ take m (drop p.total_written p.bytes)
          ≡ take (n + m) (drop o.total_written o.bytes))
reads-next o n m (long, h) = (
  ap (λ k. record o { total_written = k }) (ground arith),
  ap (λ bs. take n (drop o.total_written o.bytes) ++ take m bs)
        (drop-up_to (o.total_written + n) o.size o.bytes long ∙ drop_add o.total_written n o.bytes)
      ∙ sym (take_add n m (drop o.total_written o.bytes)),
)

-- Reads of whatever sizes copy the bytes of the raw buffer behind the position in their order, none left
-- out or copied twice, as many as the sizes come to or as there are, and move the position by as many.
pub reads-take :
    (ns : List ℕ) (o : ReadingOpaque)
    → IsReading o
    → reads ns o ≡ (
      record o { total_written = up_to (o.total_written + sum ns) o.size },
      take (sum ns) (drop o.total_written o.bytes),
    )
unfolding reads
reads-take [] o (long, h) = ap (λ k. (record o { total_written = k }, [])) (ground arith)
reads-take (n ∷ ns) o w =
    let (place, bytes) = reads-next o n (sum ns) w in
    rw
      (
        h264_read-up_to o n w.1,
        h264_read-copied o n w,
        reads-take ns _ (up_to-IsReading o (o.total_written + n) w),
      )
      (ap₂ (λ p bs. (p, bs)) place bytes)
