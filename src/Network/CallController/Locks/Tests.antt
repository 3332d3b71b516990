-- ===== src/Network/CallController/Locks/Tests.antt =====
-- The theorem on the mutexes (lib/network/controllers/callcontroller.cpp), with a third thread that takes
-- the audio stream after the first two are blocked.
use chat_up.Base.{◌≡◌, refl, true, false, some, List, [], ◌∷◌, get_elem?}
use chat_up.Network.CallController.Locks.{
  Act, System, handles, video_stream, audio_stream, lock, unlock, boot, give, join_handler,
  video_answer, audio_answer, Reach, here, next, take,
}
use chat_up.Network.CallController.Locks.Deadlock.{
  crossed, rest_of_join, rest_of_answer, join_handler-answer,
}

abbrev third : List Act
third = lock audio_stream ∷ unlock audio_stream ∷ []

abbrev video_crossed : System
video_crossed = crossed video_stream (rest_of_join false) (rest_of_answer video_stream) (third ∷ [])

abbrev audio_crossed : System
audio_crossed =
    crossed audio_stream (unlock audio_stream ∷ unlock handles ∷ []) (rest_of_answer audio_stream)
      (third ∷ [])

-- The third thread goes on.
abbrev later : System
later = record {
  owner = give audio_stream (some 2) video_crossed.owner;
  threads =
      (lock video_stream ∷ rest_of_join false)
      ∷ (lock handles ∷ rest_of_answer video_stream)
      ∷ (unlock audio_stream ∷ [])
      ∷ [];
}

join_handler-answer_example :
    Reach (boot (join_handler true false ∷ video_answer ∷ third ∷ [])) video_crossed
    × Reach (boot (join_handler false true ∷ audio_answer ∷ third ∷ [])) audio_crossed
    × (get_elem? later.threads 0 ≡ some (lock video_stream ∷ rest_of_join false))
    × (get_elem? later.threads 1 ≡ some (lock handles ∷ rest_of_answer video_stream))
    × (get_elem? audio_crossed.threads 0
        ≡ some (lock audio_stream ∷ unlock audio_stream ∷ unlock handles ∷ []))
    × (get_elem? audio_crossed.threads 1 ≡ some (lock handles ∷ rest_of_answer audio_stream))
join_handler-answer_example =
    join_handler-answer false (third ∷ []) later audio_crossed
      (next here (take 2 audio_stream _ refl refl)) here
