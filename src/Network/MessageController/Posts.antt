-- ===== src/Network/MessageController/Posts.antt =====
-- What becomes of a message that the server posts (lib/network/controllers/messagecontroller.cpp).
use chat_up.Base.{◌≡◌, refl, false, some, [], ◌∷◌, ℤ, pos, int_eq, ◌==◌, if◌then◌else◌, arith}
use chat_up.Base.Map
use chat_up.Base.Map.{Map, lookup-insert}
use chat_up.Core.Values.{Values}
use chat_up.Core.Message.{MessageData, kind, invalid_id}
use chat_up.Core.IdentifyingModel.{IdentifyingModel, id_of, ids, insert_data}
use chat_up.Core.IdentifyingModel.Rows.{member}
use chat_up.Core.IdentifyingModel.Indexed.{IsIndexed}
use chat_up.Core.IdentifyingModel.Keeps.{insert_data_list-IsIndexed}
use chat_up.Core.IdentifyingModel.Edits.{insert_data_lem}
use chat_up.Network.MessageController.{MessageController, model, keep, on_post}

module _ (values : Values) where
  open values use {V, kit, Time, Bytes}

  first :
      (m : IdentifyingModel (MessageData Time Bytes)) (mess : MessageData Time Bytes)
      → IsIndexed kit (kind values) m
      → member (id_of kit (kind values) mess) (ids kit (kind values) m.items) ≡ false
      → let n = (insert_data kit (kind values) (pos 0) mess m).0 in
        (n.items ≡ mess ∷ m.items) × IsIndexed kit (kind values) n
  first m mess v new =
      let (done, items, w) =
        insert_data_list-IsIndexed kit (kind values) m 0 (mess ∷ []) v (omega arith) (omega arith)
          (refl, tt) (new, tt) in
      rw (insert_data_lem kit (kind values) m (pos 0) mess) (items, w)

  -- A posted message with valid ids that its room does not show yet stands first in the room's model,
  -- before the messages that were there, whether or not the room had a model; the index of the model
  -- agrees with the messages again, and the models of the other rooms are as they were.
  pub on_post-first :
      (c : MessageController Time Bytes) (mess : MessageData Time Bytes) (j : ℤ)
      → (mess.id == invalid_id) ≡ false
      → (mess.room_id == pos 0) ≡ false
      → IsIndexed kit (kind values) (model mess.room_id c)
      → member (id_of kit (kind values) mess) (ids kit (kind values) (model mess.room_id c).items)
        ≡ false
      → (n : IdentifyingModel (MessageData Time Bytes)) × (Map.lookup j
            (on_post values mess c).history
          ≡ (if mess.room_id == j then some n else Map.lookup j c.history))
        × (n.items ≡ mess ∷ (model mess.room_id c).items)
        × IsIndexed kit (kind values) n
  unfolding on_post keep
  on_post-first c mess j valid room v new =
      let m = model mess.room_id c in
      let n = (insert_data kit (kind values) (pos 0) mess m).0 in
      let (items, w) = first m mess v new in
      (n, rw (valid, room) (lookup-insert mess.room_id j n c.history), items, w)
