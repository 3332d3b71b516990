-- ===== src/Network/GroupController/Added.antt =====
-- What becomes of the group that the client shows when a second one is added
-- (lib/network/controllers/groupcontroller.cpp).
use chat_up.Base.{
  ◌≡◌, ◌≢◌, refl, ap, ◌∙◌, true, some, pos, ◌+ℤ◌, int_eq, ltb, length, get_elem?, arith,
}
use chat_up.Core.Values.{Values}
use chat_up.Core.IdentifyingModel.{IdentifyingModel, id_of, insert_rows, set_item, row_count}
use chat_up.Core.IdentifyingModel.Indexed.{IsIndexed}
use chat_up.Core.IdentifyingModel.Stale.{inserted, set_item-stale}
use chat_up.Core.Group.{ExtendedData, kind, fresh}
use chat_up.Core.Message.{MessageData}
use chat_up.Network.GroupController.{index_of, add_group, on_message}
use chat_up.Network.GroupController.Puts.{At}
use chat_up.Network.GroupController.Groups.{message_counted}

module _ (values : Values) where
  open values use {V, kit, Time, Bytes}

  placed :
      (m : IdentifyingModel (ExtendedData Time)) (group : ExtendedData Time)
      → let n = (insert_rows kit (kind values) (pos 0) (pos 1) m).0 in
        kit.index (length n.items) (pos 0) ≡ some 0
        → add_group values group m ≡ (set_item kit (kind values) (some 0) group n).0
  unfolding add_group row_count
  placed m group e =
      ap
        (λ o.
          (set_item kit (kind values) o group
            (insert_rows kit (kind values) (pos 0) (pos 1) m).0).0)
        e

  -- What "addRoom" and `create` do to the only group there is: the new group is above it, and its id
  -- answers the row of the new group.
  added :
      (m : IdentifyingModel (ExtendedData Time)) (u group : ExtendedData Time)
      → IsIndexed kit (kind values) m
      → length m.items ≡ 1
      → get_elem? m.items 0 ≡ some u
      → id_of kit (kind values) (fresh values) ≢ id_of kit (kind values) u
      → id_of kit (kind values) group ≢ id_of kit (kind values) u
      → let n = add_group values group m in
        (get_elem? n.items 0 ≡ some group)
        × (get_elem? n.items 1 ≡ some u)
        × (index_of values (id_of kit (kind values) u) n ≡ some 0)
  added m u group v len e ne other =
      let (count, row) = inserted kit (kind values) m 0 u v len e ne in
      let n : IdentifyingModel (ExtendedData Time) =
        (insert_rows kit (kind values) (pos 0) (pos 1) m).0 in
      let inside : ltb 0 (length n.items) ≡ true = ground (arith, count) in
      let row : kit.index (length n.items) (pos 0) ≡ some 0 =
        kit.index-pos (length n.items) 0 ∙ rw inside refl in
      let (first, second, answer) = set_item-stale kit (kind values) m 0 u group v len e ne other in
      rw (placed m group row) (first, second, answer)

  -- Where one group is shown, whose id is not that of a new item, and a group with another id is
  -- added, a message for the older group is counted and shown in the new group instead, and the
  -- older group, in the row below, is as it was.
  pub add_group-on_message :
      (m : IdentifyingModel (ExtendedData Time)) (u group : ExtendedData Time)
      (mess : MessageData Time Bytes)
      → IsIndexed kit (kind values) m
      → length m.items ≡ 1
      → get_elem? m.items 0 ≡ some u
      → id_of kit (kind values) (fresh values) ≢ id_of kit (kind values) u
      → id_of kit (kind values) group ≢ id_of kit (kind values) u
      → mess.room_id ≡ id_of kit (kind values) u
      → let n = add_group values group m in
        (get_elem? n.items 1 ≡ some u)
        × At values n 0 (on_message values mess n) (record group {
          message_count = group.message_count +ℤ pos 1;
          last_body = values.to_string (values.of_bytes mess.body);
          last_message_time = mess.time;
          last_sender = mess.user_id;
        })
  add_group-on_message m u group mess v len e ne other room =
      let (first, second, answer) = added m u group v len e ne other in
      let n = add_group values group m in
      (
        second,
        message_counted values n mess 0 group (ap (λ i. index_of values i n) room ∙ answer) first,
      )
