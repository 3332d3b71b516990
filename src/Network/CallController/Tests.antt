-- ===== src/Network/CallController/Tests.antt =====
-- The theorems on the call controller with one handle, for room 4, in whose call user 7 takes part
-- with video on (lib/network/controllers/callcontroller.cpp).
use chat_up.Base.{
  ℕ, ◌≡◌, refl, ap, sym, subst, Bool, true, false, ◌||◌, none, some, List, [], ◌∷◌, map, ℤ, pos,
  int_eq, ◌==◌, get_elem?, set, if◌then◌else◌, arith,
}
use chat_up.Base.Map
use chat_up.Core.Sample.{sample}
use chat_up.Core.Participate.{
  ParticipateData, new_participate, kind, read, has_video_role, has_audio_role,
}
use chat_up.Core.IdentifyingModel.{empty, ids}
use chat_up.Core.IdentifyingModel.Rows.{member}
use chat_up.Core.IdentifyingModel.Indexed.{IsIndexed}
use chat_up.Core.IdentifyingModel.Keeps.{empty-IsIndexed, id_to_index_iff}
use chat_up.Network.CallController.{
  CallController, Effect, MediaUpdate, inside_the_call, participants_of, remote_video_flushed,
  local_video_opened, local_audio_opened,
}
use chat_up.Network.CallController.Participants.{
  Participants, put_first, index_of, let_in, joined, left, switch_media, set_media, has_media,
}
use chat_up.Network.CallController.Participants.Members.{put_first_lem, let_in-IsIndexed}
use chat_up.Network.CallController.Participants.Joined.{joined-left}
use chat_up.Network.CallController.Participants.Switched.{switch_media-sets}
use chat_up.Network.CallController.Participants.Flags.{set_media-has_media}
use chat_up.Network.CallController.Participants.Others.{except}
use chat_up.Network.CallController.Streams.{video_sent, audio_sent, opened_video, close_video}
use chat_up.Network.CallController.Streams.Sent.{sent-others, opened_video-close_video}

abbrev guest : ParticipateData
guest = record { user_id = pos 7; room_id = pos 4; has_audio = false; has_video = true }

abbrev other : ParticipateData
other = record { user_id = pos 8; room_id = pos 4; has_audio = false; has_video = false }

abbrev room : Participants
room = put_first sample.kit guest empty

nobody : member (pos 7) (ids sample.kit (kind sample.kit) empty.items) ≡ false
unfolding empty
nobody = refl

room_items : room.items ≡ guest ∷ []
unfolding empty
room_items =
    (put_first_lem sample.kit guest empty (empty-IsIndexed sample.kit (kind sample.kit)) nobody).0

room-IsIndexed : IsIndexed sample.kit (kind sample.kit) room
room-IsIndexed =
    (put_first_lem sample.kit guest empty (empty-IsIndexed sample.kit (kind sample.kit)) nobody).1

room_row : get_elem? room.items 0 ≡ some guest
room_row = ap (λ q. get_elem? q 0) room_items

room_found : index_of sample.kit (pos 7) room ≡ some 0
unfolding kind read
room_found =
    (id_to_index_iff sample.kit (kind sample.kit) room (pos 7) 0 room-IsIndexed).1
      (guest, room_row, sample.kit.to_int-of_int (pos 7))

only_guest :
    (i : ℤ) → (pos 7 == i) ≡ false → member i (ids sample.kit (kind sample.kit) room.items) ≡ false
unfolding kind read
only_guest i e =
    subst (λ q. member i (ids sample.kit (kind sample.kit) q) ≡ false) (sym room_items)
      (subst (λ k. (if k == i then true else false) ≡ false)
        (sym (sample.kit.to_int-of_int (pos 7))) (rw e refl))

abbrev one_call : CallController ℕ
one_call = record {
  handles = record { participants = room; room_id = pos 4; state = inside_the_call } ∷ [];
  by_room = Map.insert (pos 4) 0 Map.empty;
  free_handle_pool = [];
  local_audio = record { src = some 21; config = 1 };
  local_video = record { src = some 20; config = 2 };
  connectors = Map.empty;
  active_call_room = some (pos 4);
}

room_of_calls : participants_of 0 one_call ≡ room
unfolding participants_of
room_of_calls = refl

or_true : (b : Bool) → (b || true) ≡ true
or_true true = refl
or_true false = refl

let_in-IsIndexed_example :
    (d : CallController ℕ) × (fx : List (Effect ℕ)) × (let_in sample.kit
        (λ s. s)
        (pos 5)
        0
        other
        one_call
      ≡ some (d, fx))
    × IsIndexed sample.kit (kind sample.kit) (participants_of 0 d)
    × ((participants_of 0 d).items ≡ (
        if member (pos 8) (ids sample.kit (kind sample.kit) (participants_of 0 one_call).items)
        then (participants_of 0 one_call).items
        else other ∷ (participants_of 0 one_call).items))
let_in-IsIndexed_example =
    let_in-IsIndexed sample.kit (λ s. s) (pos 5) 0 other one_call (omega arith)
      (subst (IsIndexed sample.kit (kind sample.kit)) (sym room_of_calls) room-IsIndexed)
      (or_true _) (or_true _)

abbrev video_off : MediaUpdate
video_off = record { video = false; audio = true; user_id = pos 7; room_id = pos 4 }

calls_found : index_of sample.kit (pos 7) (participants_of 0 one_call) ≡ some 0
unfolding participants_of
calls_found = room_found

calls_row : get_elem? (participants_of 0 one_call).items 0 ≡ some guest
unfolding participants_of
calls_row = room_row

switch_media-sets_example :
    ((participants_of 0 (switch_media sample.kit 0 video_off one_call).0).items
      ≡ set
          (participants_of 0 one_call).items
          0
          (record guest { has_video = false; has_audio = true }))
    × ((participants_of 0 (switch_media sample.kit 0 video_off one_call).0).index
        ≡ (participants_of 0 one_call).index)
    × ((switch_media sample.kit 0 video_off one_call).1 ≡ remote_video_flushed (pos 7) ∷ [])
switch_media-sets_example =
    switch_media-sets sample.kit 0 video_off one_call 0 guest (omega arith) calls_found calls_row

set_media-has_media_example :
    (has_media sample.kit
        (pos 7)
        has_video_role
        (set_media sample.kit (pos 7) has_video_role false room)
      ≡ false)
    × (has_media sample.kit
          (pos 7)
          has_audio_role
          (set_media sample.kit (pos 7) has_video_role false room)
        ≡ has_media sample.kit (pos 7) has_audio_role room)
    × (has_media sample.kit
          (pos 7)
          has_audio_role
          (set_media sample.kit (pos 7) has_audio_role false room)
        ≡ false)
    × (has_media sample.kit
          (pos 7)
          has_video_role
          (set_media sample.kit (pos 7) has_audio_role false room)
        ≡ has_media sample.kit (pos 7) has_video_role room)
set_media-has_media_example =
    set_media-has_media sample.kit (pos 7) false room 0 guest room_found room_row

calls_only_guest :
    member (pos 5) (ids sample.kit (kind sample.kit) (participants_of 0 one_call).items) ≡ false
unfolding participants_of
calls_only_guest = only_guest (pos 5) refl

one_call-IsIndexed : IsIndexed sample.kit (kind sample.kit) (participants_of 0 one_call)
unfolding participants_of
one_call-IsIndexed = room-IsIndexed

joined-left_example :
    ((participants_of 0 (joined sample.kit (pos 5) 0 one_call).0).items
      ≡ record new_participate { user_id = pos 5 } ∷ (participants_of 0 one_call).items)
    × ((participants_of 0
          (left sample.kit (pos 5) 0 (joined sample.kit (pos 5) 0 one_call).0).0).items
        ≡ (participants_of 0 one_call).items)
    × IsIndexed sample.kit
        (kind sample.kit)
        (participants_of 0 (left sample.kit (pos 5) 0 (joined sample.kit (pos 5) 0 one_call).0).0)
joined-left_example =
    joined-left sample.kit (pos 5) 0 one_call (omega arith) one_call-IsIndexed calls_only_guest

sent-others_example :
    (video_sent sample.kit (λ s. s) (pos 5) 0 2 one_call
      ≡ map
          (λ i. local_video_opened i 20 2)
          (except (pos 5) (ids sample.kit (kind sample.kit) (participants_of 0 one_call).items)))
    × (audio_sent sample.kit (λ s. s) (pos 5) 0 1 one_call
        ≡ map
            (λ i. local_audio_opened i 21 1)
            (except (pos 5) (ids sample.kit (kind sample.kit) (participants_of 0 one_call).items)))
sent-others_example = sent-others sample.kit (λ s. s) (pos 5) 0 20 21 2 1 one_call refl refl

opened_video-close_video_example :
    ((opened_video sample.kit (pos 7) 0 30 3 one_call).0.local_video
      ≡ record { src = some 30; config = 3 })
    × ((close_video sample.kit (pos 7) 0 one_call).0.local_video
        ≡ record { src = none; config = 2 })
    × (has_media sample.kit
          (pos 7)
          has_video_role
          (participants_of 0 (opened_video sample.kit (pos 7) 0 30 3 one_call).0)
        ≡ true)
    × (has_media sample.kit
          (pos 7)
          has_audio_role
          (participants_of 0 (opened_video sample.kit (pos 7) 0 30 3 one_call).0)
        ≡ has_media sample.kit (pos 7) has_audio_role (participants_of 0 one_call))
    × (has_media sample.kit
          (pos 7)
          has_video_role
          (participants_of 0 (close_video sample.kit (pos 7) 0 one_call).0)
        ≡ false)
    × (has_media sample.kit
          (pos 7)
          has_audio_role
          (participants_of 0 (close_video sample.kit (pos 7) 0 one_call).0)
        ≡ has_media sample.kit (pos 7) has_audio_role (participants_of 0 one_call))
opened_video-close_video_example =
    opened_video-close_video sample.kit (pos 7) 0 30 3 one_call 0 guest (omega arith) calls_found
      calls_row
