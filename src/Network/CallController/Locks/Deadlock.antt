-- ===== src/Network/CallController/Locks/Deadlock.antt =====
-- lib/network/controllers/callcontroller.cpp: threads that wait for each other.
use chat_up.Base.{
  ℕ, zero, suc, ◌≡◌, ◌≢◌, ◌∙◌, refl, Bool, true, false, Option, none, some, List, [], ◌∷◌,
  get_elem?, set, arith,
}
use chat_up.Network.CallController.Locks.{
  Mutex, handles, video_stream, audio_stream, Act, lock, unlock, System, boot, give, same_mutex,
  Step, take, leave, Reach, here, next, join_handler, video_answer, audio_answer, under, answer,
}

get_elem?-set_apart :
    {A : Type 0} (xs : List A) (i j : ℕ) (a : A) → i ≢ j → get_elem? (set xs i a) j ≡ get_elem? xs j
get_elem?-set_apart [] i j a ne = refl
get_elem?-set_apart (x ∷ xs) zero zero a ne = absurd (ne refl)
get_elem?-set_apart (x ∷ xs) zero (suc j) a ne = refl
get_elem?-set_apart (x ∷ xs) (suc i) zero a ne = refl
get_elem?-set_apart (x ∷ xs) (suc i) (suc j) a ne = get_elem?-set_apart xs i j a (λ e. ne (cc e))

give_kept :
    (m n : Mutex) (o : Option ℕ) (owner : Mutex → Option ℕ)
    → owner m ≢ owner n
    → give m o owner n ≡ owner n
give_kept handles handles o owner ne = absurd (ne refl)
give_kept video_stream video_stream o owner ne = absurd (ne refl)
give_kept audio_stream audio_stream o owner ne = absurd (ne refl)
give_kept handles video_stream o owner ne = refl
give_kept handles audio_stream o owner ne = refl
give_kept video_stream handles o owner ne = refl
give_kept video_stream audio_stream o owner ne = refl
give_kept audio_stream handles o owner ne = refl
give_kept audio_stream video_stream o owner ne = refl

-- Two threads of which each waits for a mutex that the other has locked.
record IsBlocked (i j : ℕ) (m n : Mutex) (p q : List Act) (s : System) : Type 0 where
  first : get_elem? s.threads i ≡ some (lock m ∷ p)
  second : get_elem? s.threads j ≡ some (lock n ∷ q)
  by_second : s.owner m ≡ some j
  by_first : s.owner n ≡ some i

module _ {i j : ℕ} {m n : Mutex} {p q : List Act} where
  -- A step of a third thread on another mutex.
  elsewhere :
      {s : System} (k : ℕ) (l : Mutex) (o : Option ℕ) (rest : List Act)
      → IsBlocked i j m n p q s
      → k ≢ i
      → k ≢ j
      → s.owner l ≢ s.owner m
      → s.owner l ≢ s.owner n
      → IsBlocked i j m n p q (record { owner = give l o s.owner; threads = set s.threads k rest })
  elsewhere {s} k l o rest h ni nj lm ln = record {
    first = get_elem?-set_apart s.threads k i rest ni ∙ h.first;
    second = get_elem?-set_apart s.threads k j rest nj ∙ h.second;
    by_second = give_kept l m o s.owner lm ∙ h.by_second;
    by_first = give_kept l n o s.owner ln ∙ h.by_first;
  }

  Step-IsBlocked : {s t : System} → Step s t → IsBlocked i j m n p q s → IsBlocked i j m n p q t
  Step-IsBlocked {s} (take k l rest g free) h =
      elsewhere k l (some k) rest h (λ e. cc (e, g, free, h.first, h.by_second))
        (λ e. cc (e, g, free, h.second, h.by_first)) (λ e. cc (e, free, h.by_second))
        (λ e. cc (e, free, h.by_first))
  Step-IsBlocked {s} (leave k l rest g own) h =
      elsewhere k l none rest h (λ e. cc (e, g, h.first)) (λ e. cc (e, g, h.second))
        (λ e. cc (e, g, own, h.by_second, h.second)) (λ e. cc (e, g, own, h.by_first, h.first))

Reach-IsBlocked :
    {i j : ℕ} {m n : Mutex} {p q : List Act} {s t : System}
    → Reach s t
    → IsBlocked i j m n p q s
    → IsBlocked i j m n p q t
Reach-IsBlocked here h = h
Reach-IsBlocked (next r st) h = Step-IsBlocked st (Reach-IsBlocked r h)

-- The first thread holds the handles and waits for a stream, the second holds the stream and waits for
-- the handles.
abbrev pub crossed : Mutex → List Act → List Act → List (List Act) → System
crossed stream p q others = record {
  owner =
      give stream (some 1)
        (give handles (some 0) (give handles none (give handles (some 0) (λ m. none))));
  threads = (lock stream ∷ p) ∷ (lock handles ∷ q) ∷ others;
}

Reach-crossed :
    (stream : Mutex) (p q : List Act) (others : List (List Act))
    → same_mutex handles stream ≡ false
    → Reach
        (boot (
          (lock handles ∷ unlock handles ∷ lock handles ∷ lock stream ∷ p)
          ∷ (lock stream ∷ lock handles ∷ q)
          ∷ others))
        (crossed stream p q others)
Reach-crossed handles p q others e = absurd (ground (arith, e))
Reach-crossed video_stream p q others e =
    next
      (next (next (next here (take 0 handles _ refl refl)) (leave 0 handles _ refl refl))
        (take 0 handles _ refl refl))
      (take 1 video_stream _ refl refl)
Reach-crossed audio_stream p q others e =
    next
      (next (next (next here (take 0 handles _ refl refl)) (leave 0 handles _ refl refl))
        (take 0 handles _ refl refl))
      (take 1 audio_stream _ refl refl)

crossed-IsBlocked :
    (stream : Mutex) (p q : List Act) (others : List (List Act))
    → same_mutex handles stream ≡ false
    → IsBlocked 0 1 stream handles p q (crossed stream p q others)
crossed-IsBlocked handles p q others e = absurd (ground (arith, e))
crossed-IsBlocked video_stream p q others e = record {
  first = refl;
  second = refl;
  by_second = refl;
  by_first = refl;
}
crossed-IsBlocked audio_stream p q others e = record {
  first = refl;
  second = refl;
  by_second = refl;
  by_first = refl;
}

-- The rest of the handler of Join after its wait for the video stream, and that of the answer of
-- openVideo or openAudio after its wait for the handles.
abbrev pub rest_of_join : Bool → List Act
rest_of_join true =
    unlock video_stream ∷ lock audio_stream ∷ unlock audio_stream ∷ unlock handles ∷ []
rest_of_join false = unlock video_stream ∷ unlock handles ∷ []

abbrev pub rest_of_answer : Mutex → List Act
rest_of_answer stream = unlock handles ∷ unlock stream ∷ []

join_handler_lem :
    (has_audio : Bool)
    → join_handler true has_audio
      ≡ lock handles ∷ unlock handles ∷ lock handles ∷ lock video_stream ∷ rest_of_join has_audio
unfolding join_handler under
join_handler_lem true = refl
join_handler_lem false = refl

-- A thread that runs the handler of Join for a new participant, with the own video on, and a thread
-- that runs the answer of openVideo, beside any other threads: they can come to a state from which,
-- whatever steps the threads take, the first waits for the video stream and the second for the handles.
-- With the own audio on, alone, and the answer of openAudio it is the same with the audio stream.
pub join_handler-answer :
    (has_audio : Bool) (others : List (List Act)) (t u : System)
    → let p = rest_of_join has_audio in
      let q : List Act = unlock audio_stream ∷ unlock handles ∷ [] in
      let v = crossed video_stream p (rest_of_answer video_stream) others in
      let a = crossed audio_stream q (rest_of_answer audio_stream) others in
      Reach v t
      → Reach a u
      → Reach (boot (join_handler true has_audio ∷ video_answer ∷ others)) v
        × Reach (boot (join_handler false true ∷ audio_answer ∷ others)) a
        × (get_elem? t.threads 0 ≡ some (lock video_stream ∷ p))
        × (get_elem? t.threads 1 ≡ some (lock handles ∷ rest_of_answer video_stream))
        × (get_elem? u.threads 0 ≡ some (lock audio_stream ∷ q))
        × (get_elem? u.threads 1 ≡ some (lock handles ∷ rest_of_answer audio_stream))
unfolding join_handler video_answer audio_answer under answer
join_handler-answer has_audio others t u rt ru =
    let p = rest_of_join has_audio in
    let h = Reach-IsBlocked rt (crossed-IsBlocked video_stream p _ others refl) in
    let k = Reach-IsBlocked ru (crossed-IsBlocked audio_stream _ _ others refl) in
    (
      rw (join_handler_lem has_audio) (Reach-crossed video_stream p _ others refl),
      Reach-crossed audio_stream _ _ others refl,
      h.first,
      h.second,
      k.first,
      k.second,
    )
