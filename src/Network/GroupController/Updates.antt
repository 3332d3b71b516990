-- ===== src/Network/GroupController/Updates.antt =====
-- What the handler of updates does to a group (lib/network/controllers/groupcontroller.cpp).
use chat_up.Base.{ℕ, ◌≡◌, sym, subst, some, get_elem?}
use chat_up.Core.Values.{Values}
use chat_up.Core.IdentifyingModel.{IdentifyingModel}
use chat_up.Core.Group.{
  ExtendedData, name_role, tag_role, message_count_role, local_readings_role, foreign_readings_role,
}
use chat_up.Network.GroupController.{
  GroupUpdate, index_of, put_int, put_text, extract_to, on_update,
}
use chat_up.Network.GroupController.Puts.{
  At, start, put_int-message_count, put_int-local_readings, put_int-foreign_readings, put_text-name,
  put_text-tag,
}

module _ (values : Values) where
  open values use {V, kit, Time, Bytes}

  update_found :
      (m : IdentifyingModel (ExtendedData Time)) (upd : GroupUpdate) (r : ℕ)
      → index_of values upd.id m ≡ some r
      → on_update values upd m
        ≡ put_int values upd.message_count message_count_role r (
            put_int values upd.local_readings local_readings_role r (
              put_int values upd.foreign_readings foreign_readings_role r
                (put_text values upd.name name_role r (put_text values upd.tag tag_role r m))))
  unfolding on_update
  update_found m upd r i = rw (i, on_update)

  -- An update for a room that `idToIndex` finds in a row with the same id does to the group of that
  -- row what `extractTo` does to it; the other groups and the index are as they were.
  pub on_update-extract_to :
      (m : IdentifyingModel (ExtendedData Time)) (upd : GroupUpdate) (r : ℕ) (t : ExtendedData Time)
      → index_of values upd.id m ≡ some r
      → get_elem? m.items r ≡ some t
      → t.id ≡ upd.id
      → At values m r (on_update values upd m) (extract_to upd t)
  unfolding extract_to
  on_update-extract_to m upd r t i e same =
      subst (λ k. At values m r (on_update values upd m) (record (extract_to upd t) { id = k }))
        same
        (subst (λ n. At values m r n (record (extract_to upd t) { id = t.id }))
          (sym (update_found m upd r i))
          (put_int-message_count values upd.message_count (
            put_int-local_readings values upd.local_readings (
              put_int-foreign_readings values upd.foreign_readings (
                put_text-name values upd.name
                  (put_text-tag values upd.tag (start values m r t e)))))))
