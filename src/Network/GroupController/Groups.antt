-- ===== src/Network/GroupController/Groups.antt =====
-- What the handlers of the group controller do to the groups (lib/network/controllers/groupcontroller.cpp).
use chat_up.Base.{
  ℕ, suc, refl, pos-+ℤ, ◌<◌, ◌≤◌, ◌%◌, ◌^◌, ◌≡◌, sym, ap, subst, ◌∙◌, true, false, some, [], ◌∷◌,
  ◌++◌, ℤ, pos, ◌+ℤ◌, leb, if◌then◌else◌, get_elem?, arith,
}
use chat_up.Core.Values.{Values}
use chat_up.Core.IdentifyingModel.{IdentifyingModel}
use chat_up.Core.IdentifyingModel.Edits.{data_role_lem}
use chat_up.Core.IdentifyingModel.Indexed.{IsIndexed}
use chat_up.Core.IdentifyingModel.Keeps.{id_to_index_iff}
use chat_up.Core.Group.{ExtendedData, kind, read, message_count_role, local_readings_role}
use chat_up.Core.Message.{MessageData}
use chat_up.Network.GroupController.{
  GroupController, MarkRead, ready, index_of, put, int_data, to_size, on_message, message_arrived,
  set_local_readings, read_to, mark_all, timeout,
}
use chat_up.Network.GroupController.Puts.{
  At, start, put-message_count, put-last_body, put-last_message_time, put-last_sender,
  put-local_uint, index_of-At,
}

one_more : (n : ℕ) → pos n +ℤ pos 1 ≡ pos (suc n)
one_more n = pos-+ℤ n 1 ∙ ap pos (omega arith)

module _ (values : Values) where
  open values use {V, kit, Time, Bytes}

  count_lem :
      (m : IdentifyingModel (ExtendedData Time)) (r : ℕ) (t : ExtendedData Time)
      → get_elem? m.items r ≡ some t
      → int_data values r message_count_role m ≡ t.message_count
  unfolding read
  count_lem m r t e =
      ap kit.to_int (data_role_lem kit (kind values) m r t message_count_role e)
      ∙ kit.to_int-of_int t.message_count

  readings_lem :
      (m : IdentifyingModel (ExtendedData Time)) (r : ℕ) (t : ExtendedData Time)
      → get_elem? m.items r ≡ some t
      → int_data values r local_readings_role m ≡ t.local_readings
  unfolding read
  readings_lem m r t e =
      ap kit.to_int (data_role_lem kit (kind values) m r t local_readings_role e)
      ∙ kit.to_int-of_int t.local_readings

  message_found :
      (m : IdentifyingModel (ExtendedData Time)) (mess : MessageData Time Bytes) (r : ℕ)
      → index_of values mess.room_id m ≡ some r
      → on_message values mess m ≡ message_arrived values mess r m
  unfolding on_message
  message_found m mess r i = rw (i, on_message)

  arrived-At :
      (m : IdentifyingModel (ExtendedData Time)) (mess : MessageData Time Bytes) (r : ℕ)
      (t : ExtendedData Time)
      → get_elem? m.items r ≡ some t
      → At values m r (message_arrived values mess r m) (record t {
        message_count = int_data values r message_count_role m +ℤ pos 1;
        last_body = values.to_string (values.of_bytes mess.body);
        last_message_time = mess.time;
        last_sender = mess.user_id;
      })
  unfolding message_arrived
  arrived-At m mess r t e = put-last_sender values mess.user_id (
      put-last_message_time values mess.time (
        put-last_body values mess.body (
          put-message_count values (int_data values r message_count_role m +ℤ pos 1)
            (start values m r t e))))

  pub message_counted :
      (m : IdentifyingModel (ExtendedData Time)) (mess : MessageData Time Bytes) (r : ℕ)
      (t : ExtendedData Time)
      → index_of values mess.room_id m ≡ some r
      → get_elem? m.items r ≡ some t
      → At values m r (on_message values mess m) (record t {
        message_count = t.message_count +ℤ pos 1;
        last_body = values.to_string (values.of_bytes mess.body);
        last_message_time = mess.time;
        last_sender = mess.user_id;
      })
  message_counted m mess r t i e =
      subst
        (λ k. At values m r (on_message values mess m) (record t {
          message_count = k +ℤ pos 1;
          last_body = values.to_string (values.of_bytes mess.body);
          last_message_time = mess.time;
          last_sender = mess.user_id;
        }))
        (count_lem m r t e)
        (subst
          (λ n. At values m r n (record t {
            message_count = int_data values r message_count_role m +ℤ pos 1;
            last_body = values.to_string (values.of_bytes mess.body);
            last_message_time = mess.time;
            last_sender = mess.user_id;
          }))
          (sym (message_found m mess r i)) (arrived-At m mess r t e))

  -- On a model whose index agrees with its items, a row is found by the id of its group.
  found_row :
      (m : IdentifyingModel (ExtendedData Time)) (room : ℤ) (r : ℕ) (t : ExtendedData Time)
      → IsIndexed kit (kind values) m
      → get_elem? m.items r ≡ some t
      → t.id ≡ room
      → index_of values room m ≡ some r
  unfolding read
  found_row m room r t v e same =
      (id_to_index_iff kit (kind values) m room r v).1 (t, e, kit.to_int-of_int t.id ∙ same)

  -- On a model whose index agrees with its items, a message for the room of the group in a row, of which
  -- less than 2^31 - 1 messages are counted, is counted in that group, which shows its body, time and
  -- sender as the last ones; the other groups and the index are as they were.
  pub on_message-At :
      (m : IdentifyingModel (ExtendedData Time)) (mess : MessageData Time Bytes) (r n : ℕ)
      (t : ExtendedData Time)
      → IsIndexed kit (kind values) m
      → get_elem? m.items r ≡ some t
      → t.id ≡ mess.room_id
      → t.message_count ≡ pos n
      → suc n < 2 ^ 31
      → At values m r (on_message values mess m) (record t {
        message_count = pos (suc n);
        last_body = values.to_string (values.of_bytes mess.body);
        last_message_time = mess.time;
        last_sender = mess.user_id;
      })
  on_message-At m mess r n t v e same counted small_count =
      subst
        (λ k. At values m r (on_message values mess m) (record t {
          message_count = k;
          last_body = values.to_string (values.of_bytes mess.body);
          last_message_time = mess.time;
          last_sender = mess.user_id;
        }))
        (ap (λ k. k +ℤ pos 1) counted ∙ one_more n)
        (message_counted m mess r t (found_row m mess.room_id r t v e same) e)

  small : (n : ℕ) → n < 2 ^ 31 → to_size (pos n) ≡ n
  unfolding to_size
  small n lt = omega arith

  small_word : (n : ℕ) → n < 2 ^ 31 → n % 2 ^ 32 ≡ n
  small_word n lt = omega arith

  read_found :
      (c : GroupController Time) (room : ℤ) (count l r : ℕ) (t : ExtendedData Time)
      → index_of values room c.model ≡ some r
      → get_elem? c.model.items r ≡ some t
      → t.local_readings ≡ pos l
      → l < 2 ^ 31
      → count < 2 ^ 31
      → set_local_readings values room count c ≡ (
          if leb count l then (c, ready) else (
            record {
              model = put values (some r) (values.of_uint count) local_readings_role c.model;
              readings_update_queue = c.readings_update_queue ++ room ∷ [];
              timer_is_active = true;
            },
            ready,
          ))
  unfolding set_local_readings read_to
  read_found c room count l r t i e loc lt less =
      let here = ap to_size (readings_lem c.model r t e ∙ loc) ∙ small l lt in
      rw (i, set_local_readings) (rw (here, small_word count less))

  mark_one :
      (m : IdentifyingModel (ExtendedData Time)) (room : ℤ) (r : ℕ) (t : ExtendedData Time)
      → index_of values room m ≡ some r
      → get_elem? m.items r ≡ some t
      → mark_all values (room ∷ []) m ≡ record { room_id = room; count = t.local_readings } ∷ []
  unfolding mark_all
  mark_one m room r t i e =
      rw (i, mark_all)
        (ap (λ k. let p : MarkRead = record { room_id = room; count = k } in p ∷ [])
          (readings_lem m r t e))

  -- For a room that `idToIndex` finds, whose readings are in the range of int and not negative,
  -- `setLocalReadings` with a count that is not greater than them changes nothing and returns a
  -- ready future.
  pub set_local_readings-kept :
      (c : GroupController Time) (room : ℤ) (count l r : ℕ) (t : ExtendedData Time)
      → index_of values room c.model ≡ some r
      → get_elem? c.model.items r ≡ some t
      → t.local_readings ≡ pos l
      → l < 2 ^ 31
      → count ≤ l
      → set_local_readings values room count c ≡ (c, ready)
  set_local_readings-kept c room count l r t i e loc lt le =
      let enough : leb count l ≡ true = ground arith in
      rw (read_found c room count l r t i e loc lt (omega arith), enough)

  -- On a model whose index agrees with its items, for the room of the group in a row, whose readings are
  -- not negative, and where no room waits to be reported: `setLocalReadings` with a greater count below
  -- 2^31 gives that group the count and changes no other, starts the timer, and lets this room alone wait.
  -- When the timer fires then, the server is told of that count for that room, once, and of nothing else;
  -- no room waits any more and the timer is off, so that a second fire tells the server nothing.
  pub timeout-set_local_readings :
      (c : GroupController Time) (room : ℤ) (count l r : ℕ) (t : ExtendedData Time)
      → IsIndexed kit (kind values) c.model
      → get_elem? c.model.items r ≡ some t
      → t.id ≡ room
      → t.local_readings ≡ pos l
      → l < count
      → count < 2 ^ 31
      → c.readings_update_queue ≡ []
      → let d = (set_local_readings values room count c).0 in
        let (fired, told) = timeout values d in
        At values c.model r d.model (record t { local_readings = pos count })
        × (d.readings_update_queue ≡ room ∷ [])
        × (d.timer_is_active ≡ true)
        × (told ≡ record { room_id = room; count = pos count } ∷ [])
        × (fired ≡ record d { readings_update_queue = []; timer_is_active = false })
        × ((timeout values fired).1 ≡ [])
  unfolding timeout mark_all
  timeout-set_local_readings c room count l r t v e same loc lt less q =
      let i = found_row c.model room r t v e same in
      let more : leb count l ≡ false = ground arith in
      let a = put-local_uint values count (start values c.model r t e) less in
      rw (read_found c room count l r t i e loc (omega arith) less, more, q)
        (a, refl, refl, mark_one _ room r _ (index_of-At values room a ∙ i) a.here, refl, refl)
