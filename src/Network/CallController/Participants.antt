-- ===== src/Network/CallController/Participants.antt =====
-- lib/network/controllers/callcontroller.cpp: what the call controller does with the participants of a
-- handle, on its own and when the server tells who joined, who left and which media are on.
pub mod Members
pub mod Joined
pub mod Others
pub mod Switched
pub mod Flags
use chat_up.Base.{
  ℕ, zero, suc, Bool, true, false, not, ◌&&◌, Option, none, some, List, [], ◌∷◌, ◌++◌, ℤ, pos,
  negsuc, ◌==◌, int_eq, length, get_elem?, if◌then◌else◌,
}
use chat_up.Base.Map
use chat_up.Core.Toolkit.{Toolkit}
use chat_up.Core.Participate.{
  ParticipateData, new_participate, user_role, has_audio_role, has_video_role, kind,
}
use chat_up.Core.IdentifyingModel.{
  IdentifyingModel, id_to_index, data_role, set_data, insert_data, insert_range, remove_rows,
}
use chat_up.Network.CallController.{
  CallController, Effect, MediaUpdate, disconnected, inside_the_call, local_video_opened,
  local_audio_opened, user_connection_closed, remote_video_flushed, remote_audio_flushed,
  participants_of, with_participants, set_state, handle,
}

abbrev pub Participants : Type 0
Participants = IdentifyingModel ParticipateData

module _ {V : Type 0} (kit : Toolkit V) where
  abbrev pub index_of : ℤ → Participants → Option ℕ
  index_of = id_to_index kit (kind kit)

  -- data(index, role).toBool()
  abbrev pub bool_data : Option ℕ → ℕ → Participants → Bool
  bool_data i role m = kit.to_bool (data_role kit (kind kit) i role m)

  -- setData(index, b, role)
  abbrev pub put_bool : Option ℕ → Bool → ℕ → Participants → Participants
  put_bool i b role m = (set_data kit (kind kit) i (kit.of_bool b) role m).0

  abbrev same_bool : Bool → Bool → Bool
  same_bool true b = b
  same_bool false b = not b

  -- setAudio(st, h) and setVideo(st, h), by the role, on the participants. The comparison is one of
  -- a QVariant with a bool.
  pub set_media : ℤ → ℕ → Bool → Participants → Participants
  set_media current role st m = elim (index_of current m) [
    | none ↦ m
    | some r ↦ if same_bool (bool_data (some r) role m) st then m else put_bool (some r) st role m
  ]

  -- hasAudio(h) and hasVideo(h), by the role
  pub has_media : ℤ → ℕ → Participants → Bool
  has_media current role m = elim (index_of current m) [
    | none ↦ false
    | some r ↦ bool_data (some r) role m
  ]

  others_from : ℤ → ℕ → ℕ → Participants → List ℤ
  others_from current zero i m = []
  others_from current (suc n) i m =
      let rest = others_from current n (suc i) m in
      let id =
        kit.to_int (data_role kit (kind kit) (kit.index (length m.items) (pos i)) user_role m) in
      if id == current then rest else id ∷ rest

  -- The participants that the loops over the rows reach, in order.
  pub others : ℤ → Participants → List ℤ
  unfolding others_from
  others current m = others_from current (length m.items) 0 m

  row_of : Option ℕ → ℤ
  row_of none = negsuc 0
  row_of (some r) = pos r

  -- removeRow(model->idToIndex(id).row())
  pub remove_id : ℤ → Participants → Participants
  unfolding row_of
  remove_id id m = (remove_rows kit (kind kit) (row_of (index_of id m)) (pos 1) m).0

  -- insertData(0, data)
  abbrev pub put_first : ParticipateData → Participants → Participants
  put_first p m = (insert_data kit (kind kit) (pos 0) p m).0

module _ {K V : Type 0} (kit : Toolkit V) where
  -- The continuation of `handle`, with what `std::ranges::remove_if` leaves.
  pub got_participants :
      (List ParticipateData → List ParticipateData → List ParticipateData)
      → ℕ
      → List ParticipateData
      → CallController K
      → CallController K
  got_participants leftover h res c =
      with_participants h (λ m. (insert_range kit (kind kit) leftover (pos 0) res m).0) c

  -- The continuation of `disconnect`.
  pub left : ℤ → ℕ → CallController K → CallController K × List (Effect K)
  left current h c =
      let (d, fx) = set_state disconnected h c in
      (with_participants h (remove_id kit current) d, fx)

  room_of : ℕ → CallController K → Option ℤ
  room_of h c = elim (get_elem? c.handles h) [ none ↦ none | some x ↦ some x.room_id ]

  -- What `join` does after the server's reply.
  pub joined : ℤ → ℕ → CallController K → CallController K × List (Effect K)
  unfolding room_of
  joined current h c =
      let (d, fx) = set_state inside_the_call h c in
      (
        with_participants h (put_first kit (record new_participate { user_id = current }))
            (record d { active_call_room = room_of h d }),
        fx,
      )

  -- One of the two calls that open the local streams for a user. `none` reads a null source.
  open_for : Bool → Option ℕ → (ℕ → Effect K) → Option (List (Effect K))
  open_for false src f = some []
  open_for true none f = none
  open_for true (some s) f = some (f s ∷ [])

  -- The streams that are open are opened for a user who has come in.
  open_both : (ℕ → ℕ) → ℤ → ℤ → Participants → CallController K → Option (List (Effect K))
  unfolding open_for
  open_both frame_output current user m c =
      let video =
        open_for (bool_data kit (index_of kit current m) has_video_role m) c.local_video.src
          (λ s. local_video_opened user (frame_output s) c.local_video.config) in
      let audio =
        open_for (bool_data kit (index_of kit current m) has_audio_role m) c.local_audio.src
          (λ s. local_audio_opened user (frame_output s) c.local_audio.config) in
      elim video [ none ↦ none | some fx ↦ elim audio [ none ↦ none | some gx ↦ some (fx ++ gx) ] ]

  -- The locked part of the handler of `Join`.
  pub let_in :
      (ℕ → ℕ)
      → ℤ
      → ℕ
      → ParticipateData
      → CallController K
      → Option (CallController K × List (Effect K))
  let_in frame_output current h part c = elim (index_of kit part.user_id (participants_of h c)) [
    | some r ↦ some (c, [])
    | none ↦
        let d = with_participants h (put_first kit part) c in
        elim (open_both frame_output current part.user_id (participants_of h d) d) [
          | none ↦ none
          | some fx ↦ some (d, fx)
        ]
  ]

  -- The handler of `Join`.
  pub on_join :
      (ℕ → ℕ)
      → ℤ
      → Bool
      → ParticipateData
      → CallController K
      → Option (CallController K × List (Effect K))
  on_join frame_output current grows part c = elim (handle grows part.room_id c) [
    | none ↦ none
    | some (h, d, fx) ↦ elim (let_in frame_output current h part d) [
      | none ↦ none
      | some (e, gx) ↦ some (e, fx ++ gx)
    ]
  ]

  -- What is flushed when a stream that was on is off.
  flush : Bool → Bool → Effect K → List (Effect K)
  flush was is f = if was && not is then f ∷ [] else []

  -- The locked part of the handler of `UpdateCallMedia`.
  pub switch_media : ℕ → MediaUpdate → CallController K → CallController K × List (Effect K)
  unfolding flush
  switch_media h upd c =
      let m = participants_of h c in
      elim (index_of kit upd.user_id m) [
        | none ↦ (c, [])
        | some r ↦ (
          with_participants h
              (λ n.
                put_bool kit (some r) upd.audio has_audio_role
                  (put_bool kit (some r) upd.video has_video_role n))
              c,
          flush (bool_data kit (some r) has_video_role m) upd.video
                (remote_video_flushed upd.user_id)
              ++ flush (bool_data kit (some r) has_audio_role m) upd.audio
                  (remote_audio_flushed upd.user_id),
        )
      ]

  -- The handler of `UpdateCallMedia`.
  pub on_media : Bool → MediaUpdate → CallController K → Option (CallController K × List (Effect K))
  on_media grows upd c = elim (handle grows upd.room_id c) [
    | none ↦ none
    | some (h, d, fx) ↦ let (e, gx) = switch_media h upd d in some (e, fx ++ gx)
  ]

  -- The handler of `Disconnect`.
  pub on_disconnect : ParticipateData → CallController K → CallController K × List (Effect K)
  on_disconnect part c =
      let d = record c {
        connectors = Map.erase part.user_id c.connectors;
        active_call_room = none;
      } in
      (
        elim (Map.lookup part.room_id c.by_room) [
          | none ↦ d
          | some h ↦ elim (index_of kit part.user_id (participants_of h c)) [
            | none ↦ d
            | some r ↦ with_participants h (remove_id kit part.user_id) d
          ]
        ],
        user_connection_closed part.user_id ∷ [],
      )
