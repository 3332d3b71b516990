-- ===== src/Media/SinkConnector/Tests.antt =====
-- The theorems of SinkConnector at a connector between pipe 1 and sink 7 (lib/media/media.cpp).
use chat_up.Base.{◌≡◌, none, some, List, [], ◌∷◌}
use chat_up.Media.SinkConnector.{SinkConnector, Effect}
use chat_up.Media.SinkConnector.Frames.{
  showing, on_frames, given_back, last_of, earlier, on_frames-given_back,
}

on_frames-given_back_example :
    (d : SinkConnector) × (fx : List Effect) × (on_frames (4 ∷ 5 ∷ 6 ∷ []) (showing 1 7 3 none none)
      ≡ some (d, fx))
    × (d.prev ≡ last_of (some 4) (5 ∷ 6 ∷ []))
    × (given_back fx ≡ earlier none (4 ∷ 5 ∷ 6 ∷ []))
on_frames-given_back_example = on_frames-given_back 1 7 3 4 none none (5 ∷ 6 ∷ [])
