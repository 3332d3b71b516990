-- ===== src/Network/CallController.antt =====
-- lib/network/controllers/callcontroller.cpp: the calls that the client shows, who takes part in them,
-- and the local streams. A handle, a source, a sink and a pipe are numbers. A method is a function on
-- the state with what it does outside beside it, in order; `current` is what `currentUser` answers.
-- A continuation is a function of its own. `none` reads a null pointer or an empty stack.
pub mod Participants
pub mod Streams
pub mod Locks
pub mod Handles
mod Tests
use chat_up.Base.{
  ℕ, zero, suc, max, Bool, true, false, Option, none, some, List, [], ◌∷◌, ◌++◌, ℤ, pos, int_eq,
  length, get_elem?, set, if◌then◌else◌,
}
use chat_up.Base.Map
use chat_up.Base.Map.{Map}
use chat_up.Core.Participate.{ParticipateData}
use chat_up.Core.IdentifyingModel.{IdentifyingModel, empty}
use chat_up.Media.SinkConnector.{SinkConnector}

pub data CallState : Type 0 where
  disconnected inside_the_call : CallState

abbrev same_state : CallState → CallState → Bool
same_state disconnected disconnected = true
same_state inside_the_call inside_the_call = true
same_state disconnected inside_the_call = false
same_state inside_the_call disconnected = false

pub record CallHandle : Type 0 where
  pub participants : IdentifyingModel ParticipateData
  pub room_id : ℤ
  pub state : CallState

-- AudioStreamContext and VideoStreamContext, the connectors of the latter apart
pub record StreamContext (K : Type 0) : Type 0 where
  pub src : Option ℕ
  pub config : K

pub record CallController (K : Type 0) : Type 0 where
  pub handles : List CallHandle
  pub by_room : Map ℤ ℕ
  pub free_handle_pool : List ℕ
  pub local_audio : StreamContext K
  pub local_video : StreamContext K
  pub connectors : Map ℤ SinkConnector
  pub active_call_room : Option ℤ

-- Calls of the server, of the sources, of rtc::Service, and signals.
pub data Effect (K : Type 0) : Type 0 where
  get_sent join_sent disconnect_sent : ℤ → Effect K
  media_sent : Option Bool → Option Bool → Effect K
  src_closed : ℕ → Effect K
  all_connections_closed : Effect K
  user_connection_closed remote_video_flushed remote_audio_flushed : ℤ → Effect K
  local_video_opened local_audio_opened : ℤ → ℕ → K → Effect K
  local_video_closed local_audio_closed : ℤ → Effect K
  state_changed has_audio_changed has_video_changed : ℕ → Effect K

-- Api::UpdateCallMedia::MediaUpdate
pub record MediaUpdate : Type 0 where
  pub video : Bool
  pub audio : Bool
  pub user_id : ℤ
  pub room_id : ℤ

-- Handle(controller)
pub new_handle : CallHandle
new_handle = record { participants = empty; room_id = pos 0; state = disconnected }

module _ {K : Type 0} where
  -- growHandlePool(size), as it runs on the controller's thread
  pub grow_handle_pool : ℕ → CallController K → CallController K
  grow_handle_pool zero c = c
  grow_handle_pool (suc n) c = grow_handle_pool n (record c {
    handles = c.handles ++ new_handle ∷ [];
    free_handle_pool = length c.handles ∷ c.free_handle_pool;
  })

  pub participants_of : ℕ → CallController K → IdentifyingModel ParticipateData
  participants_of h c = elim (get_elem? c.handles h) [ none ↦ empty | some x ↦ x.participants ]

  pub with_handle : ℕ → (CallHandle → CallHandle) → CallController K → CallController K
  with_handle h f c = elim (get_elem? c.handles h) [
    | none ↦ c
    | some x ↦ record c { handles = set c.handles h (f x) }
  ]

  pub with_participants :
      ℕ
      → (IdentifyingModel ParticipateData → IdentifyingModel ParticipateData)
      → CallController K
      → CallController K
  unfolding with_handle
  with_participants h f c = with_handle h (λ x. record x { participants = f x.participants }) c

  take_handle : ℤ → List ℕ → CallController K → Option (ℕ × CallController K × List (Effect K))
  unfolding with_handle
  take_handle room [] c = none
  take_handle room (h ∷ hs) c =
      let named = with_handle h (λ x. record x { room_id = room }) c in
      some (
        h,
        record named { free_handle_pool = hs; by_room = Map.insert room h c.by_room },
        get_sent room ∷ [],
      )

  -- handle(roomID). `grows` says whether an empty pool has grown when growHandlePool returns: the
  -- handles come from a continuation on the controller's thread.
  pub handle : Bool → ℤ → CallController K → Option (ℕ × CallController K × List (Effect K))
  unfolding grow_handle_pool take_handle
  handle grows room c = elim (Map.lookup room c.by_room) [
    | some h ↦ some (h, c, [])
    | none ↦ elim c.free_handle_pool [
      | h ∷ hs ↦ take_handle room (h ∷ hs) c
      | [] ↦
          let grown = grow_handle_pool (max (Map.size c.by_room) 10) c in
          if grows then take_handle room grown.free_handle_pool grown else none
    ]
  ]

  -- setState(other) of a handle
  pub set_state : CallState → ℕ → CallController K → CallController K × List (Effect K)
  unfolding with_handle
  set_state other h c = elim (get_elem? c.handles h) [
    | none ↦ (c, [])
    | some x ↦
        if same_state other x.state
        then (c, [])
        else (with_handle h (λ y. record y { state = other }) c, state_changed h ∷ [])
  ]

  pub close_src : Option ℕ → List (Effect K)
  close_src none = []
  close_src (some s) = src_closed s ∷ []

  -- clearMedia(), with SourceConfig()
  pub clear_media : K → CallController K → CallController K × List (Effect K)
  unfolding close_src
  clear_media no_config c = (
    record c {
      local_audio = record { src = none; config = no_config };
      local_video = record { src = none; config = no_config };
      connectors = Map.empty;
    },
    close_src c.local_audio.src ++ close_src c.local_video.src,
  )

  -- disconnect(h) up to the call of the server; the error is `none` in the second place
  pub disconnect : K → ℕ → CallController K → CallController K × Option (List (Effect K))
  unfolding clear_media
  disconnect no_config h c = elim (get_elem? c.handles h) [
    | none ↦ (c, none)
    | some x ↦ elim x.state [
      | disconnected ↦ (c, none)
      | inside_the_call ↦
          let (cleared, fx) = clear_media no_config c in
          (cleared, some (fx ++ all_connections_closed ∷ disconnect_sent x.room_id ∷ []))
    ]
  ]

  -- join(h) up to the call of the server: the exceptional future for a handle inside the call is made
  -- and dropped
  pub join : ℕ → CallController K → List (Effect K)
  join h c = elim (get_elem? c.handles h) [ none ↦ [] | some x ↦ join_sent x.room_id ∷ [] ]

  -- release(h); that the handle is also deleted is left out
  pub release : ℕ → CallController K → CallController K
  release h c = elim (get_elem? c.handles h) [
    | none ↦ c
    | some x ↦ elim (Map.lookup x.room_id c.by_room) [
      | none ↦ c
      | some g ↦ record c {
        free_handle_pool = g ∷ c.free_handle_pool;
        by_room = Map.erase x.room_id c.by_room;
      }
    ]
  ]

  -- reset(), with the result of its `disconnect`, which it drops
  pub reset : K → CallController K → Option (CallController K × List (Effect K))
  unfolding disconnect
  reset no_config c =
      let forget =
        λ (d : CallController K). record d { active_call_room = none; by_room = Map.empty } in
      elim c.active_call_room [
        | none ↦ some (forget c, [])
        | some room ↦ elim (Map.lookup room c.by_room) [
          | none ↦ none
          | some h ↦
              let (d, out) = disconnect no_config h c in
              some (forget d, elim out [ none ↦ [] | some fx ↦ fx ])
        ]
      ]
