-- ===== src/Network/MessageController/Tests.antt =====
-- The theorem on posted messages at the controller's first state
-- (lib/network/controllers/messagecontroller.cpp).
use chat_up.Base.{◌≡◌, refl, sym, subst, false, some, ◌∷◌, pos, int_eq, ◌==◌, if◌then◌else◌}
use chat_up.Base.Map
use chat_up.Base.Map.{Map, lookup-empty}
use chat_up.Core.Sample.{sample}
use chat_up.Core.Message.{MessageData, kind}
use chat_up.Core.IdentifyingModel.{IdentifyingModel, empty, id_of, ids}
use chat_up.Core.IdentifyingModel.Rows.{member}
use chat_up.Core.IdentifyingModel.Indexed.{IsIndexed}
use chat_up.Core.IdentifyingModel.Keeps.{empty-IsIndexed}
use chat_up.Network.MessageController.{MessageController, init, model, on_post}
use chat_up.Network.MessageController.Posts.{on_post-first}

abbrev at_start : MessageController sample.Time sample.Bytes
at_start = init

abbrev hello : MessageData sample.Time sample.Bytes
hello = record {
  id = pos 90;
  user_id = pos 7;
  room_id = pos 4;
  time = sample.no_time;
  body = sample.no_bytes;
  message_index = 1;
}

no_history : model (pos 4) at_start ≡ empty
unfolding init model
no_history = rw (lookup-empty (pos 4), model)

nobody :
    member (id_of sample.kit (kind sample) hello) (ids sample.kit (kind sample) empty.items) ≡ false
unfolding empty
nobody = refl

on_post-first_example :
    (n : IdentifyingModel (MessageData sample.Time sample.Bytes)) × (Map.lookup
        (pos 4)
        (on_post sample hello at_start).history
      ≡ (if pos 4 == pos 4 then some n else Map.lookup (pos 4) at_start.history))
    × (n.items ≡ hello ∷ (model (pos 4) at_start).items)
    × IsIndexed sample.kit (kind sample) n
on_post-first_example =
    on_post-first sample at_start hello (pos 4) refl refl
      (subst (IsIndexed sample.kit (kind sample)) (sym no_history)
        (empty-IsIndexed sample.kit (kind sample)))
      (subst
        (λ m.
          member (id_of sample.kit (kind sample) hello) (ids sample.kit (kind sample) m.items)
          ≡ false)
        (sym no_history) nobody)
