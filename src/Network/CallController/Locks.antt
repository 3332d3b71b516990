-- ===== src/Network/CallController/Locks.antt =====
-- lib/network/controllers/callcontroller.cpp: the mutexes that threads of the controller take, as a step
-- relation. A thread is the list of what it has still to lock and to unlock; a std::lock_guard unlocks
-- at the end of its block.
pub mod Deadlock
mod Tests
use chat_up.Base.{
  ℕ, ◌≡◌, Bool, true, false, Option, none, some, List, [], ◌∷◌, get_elem?, set, if◌then◌else◌,
}

-- _handlesMutex, _localVideoStream.mutex and _localAudioStream.mutex
pub data Mutex : Type 0 where
  handles video_stream audio_stream : Mutex

pub data Act : Type 0 where
  lock unlock : Mutex → Act

under : Bool → Mutex → List Act → List Act
under true m rest = lock m ∷ unlock m ∷ rest
under false m rest = rest

-- The handler of Join for a new participant: `handle` locks and unlocks, then the guard is held while
-- the own video and the own audio are sent to the participant, if they are on.
unfoldable pub join_handler : Bool → Bool → List Act
unfolding under
join_handler has_video has_audio =
    lock handles
    ∷ unlock handles
    ∷ lock handles
    ∷ under has_video video_stream (under has_audio audio_stream (unlock handles ∷ []))

-- The continuation of UpdateCallMedia in openVideo and in openAudio, where the stream has a source.
answer : Mutex → List Act
answer stream = lock stream ∷ lock handles ∷ unlock handles ∷ unlock stream ∷ []

unfoldable pub video_answer : List Act
unfolding answer
video_answer = answer video_stream

unfoldable pub audio_answer : List Act
unfolding answer
audio_answer = answer audio_stream

-- The thread that has locked each mutex, and what each thread has still to do.
pub record System : Type 0 where
  pub owner : Mutex → Option ℕ
  pub threads : List (List Act)

abbrev pub boot : List (List Act) → System
boot threads = record { owner = λ m. none; threads = threads }

abbrev pub same_mutex : Mutex → Mutex → Bool
same_mutex handles handles = true
same_mutex video_stream video_stream = true
same_mutex audio_stream audio_stream = true
same_mutex handles video_stream = false
same_mutex handles audio_stream = false
same_mutex video_stream handles = false
same_mutex video_stream audio_stream = false
same_mutex audio_stream handles = false
same_mutex audio_stream video_stream = false

abbrev pub give : Mutex → Option ℕ → (Mutex → Option ℕ) → Mutex → Option ℕ
give m o owner n = if same_mutex m n then o else owner n

-- A thread locks a mutex that is free and unlocks one that it has locked.
pub data Step (s : System) : System → Type 0 where
  take :
      (i : ℕ) (m : Mutex) (rest : List Act)
      → get_elem? s.threads i ≡ some (lock m ∷ rest)
      → s.owner m ≡ none
      → Step s (record { owner = give m (some i) s.owner; threads = set s.threads i rest })
  leave :
      (i : ℕ) (m : Mutex) (rest : List Act)
      → get_elem? s.threads i ≡ some (unlock m ∷ rest)
      → s.owner m ≡ some i
      → Step s (record { owner = give m none s.owner; threads = set s.threads i rest })

pub data Reach (s : System) : System → Type 0 where
  here : Reach s s
  next : {t u : System} → Reach s t → Step t u → Reach s u
