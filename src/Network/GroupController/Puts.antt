-- ===== src/Network/GroupController/Puts.antt =====
-- What `setData` with a role does to the group in a row (lib/core/models/identifyingmodel.h,
-- lib/core/models/groupmodel.cpp).
use chat_up.Base.{
  get_elem?-set, set-set, ℕ, ◌≡◌, refl, ap, ◌∙◌, true, false, Option, none, some, String, ℤ,
  nat_beq, int_eq, get_elem?, set, length, length-set, pos, ◌<◌, ◌^◌,
}
use chat_up.Core.Values.{Values}
use chat_up.Core.IdentifyingModel.{IdentifyingModel, id_role}
use chat_up.Core.IdentifyingModel.Edits.{set-same, set_data_lem, id_to_index-same}
use chat_up.Core.Group.{
  ExtendedData, kind, edit, name_role, tag_role, message_count_role, foreign_readings_role,
  local_readings_role, last_body_role, last_sender_role, last_time_role,
}
use chat_up.Network.GroupController.{put, index_of, put_text, put_int}

module _ (values : Values) where
  open values use {V, kit, Time}

  -- A model with the items of `m` but `t` in row `r`, and the same index.
  pub record At (m : IdentifyingModel (ExtendedData Time)) (r : ℕ)
      (n : IdentifyingModel (ExtendedData Time)) (t : ExtendedData Time) : Type 0 where
    pub items : n.items ≡ set m.items r t
    pub index : n.index ≡ m.index
    pub here : get_elem? n.items r ≡ some t

  pub step :
      {m n : IdentifyingModel (ExtendedData Time)} {r : ℕ} {t : ExtendedData Time}
      (u : ExtendedData Time) (v : V) (role : ℕ)
      → At m r n t
      → kit.is_valid v ≡ true
      → nat_beq role id_role ≡ false
      → edit values t v role ≡ (u, true)
      → At m r (put values (some r) v role n) u
  step {m} {n} {r} {t} u v role a valid other e =
      let p = ap (λ q. q.0) (set_data_lem kit (kind values) n r t u v role a.here valid other e) in
      rw p (record {
        items = ap (λ q. set q r u) a.items ∙ set-set m.items r t u;
        index = a.index;
        here = get_elem?-set n.items r t u a.here;
      })

  pub start :
      (m : IdentifyingModel (ExtendedData Time)) (r : ℕ) (t : ExtendedData Time)
      → get_elem? m.items r ≡ some t
      → At m r m t
  start m r t e = record { items = set-same m.items r t e; index = refl; here = e }

  pub put-message_count :
      {m n : IdentifyingModel (ExtendedData Time)} {r : ℕ} {t : ExtendedData Time} (k : ℤ)
      → At m r n t
      → At m r
          (put values (some r) (kit.of_int k) message_count_role n)
          (record t { message_count = k })
  unfolding edit
  put-message_count k a =
      step _ (kit.of_int k) message_count_role a (kit.is_valid-of_int k) refl
        (rw (kit.can_int-of_int k, kit.to_int-of_int k))

  pub put-foreign_readings :
      {m n : IdentifyingModel (ExtendedData Time)} {r : ℕ} {t : ExtendedData Time} (k : ℤ)
      → At m r n t
      → At m r
          (put values (some r) (kit.of_int k) foreign_readings_role n)
          (record t { foreign_readings = k })
  unfolding edit
  put-foreign_readings k a =
      step _ (kit.of_int k) foreign_readings_role a (kit.is_valid-of_int k) refl
        (rw (kit.can_int-of_int k, kit.to_int-of_int k))

  pub put-local_readings :
      {m n : IdentifyingModel (ExtendedData Time)} {r : ℕ} {t : ExtendedData Time} (k : ℤ)
      → At m r n t
      → At m r
          (put values (some r) (kit.of_int k) local_readings_role n)
          (record t { local_readings = k })
  unfolding edit
  put-local_readings k a =
      step _ (kit.of_int k) local_readings_role a (kit.is_valid-of_int k) refl
        (rw (kit.can_int-of_int k, kit.to_int-of_int k))

  pub put-last_sender :
      {m n : IdentifyingModel (ExtendedData Time)} {r : ℕ} {t : ExtendedData Time} (k : ℤ)
      → At m r n t
      → At m r
          (put values (some r) (kit.of_int k) last_sender_role n)
          (record t { last_sender = k })
  unfolding edit
  put-last_sender k a =
      step _ (kit.of_int k) last_sender_role a (kit.is_valid-of_int k) refl
        (rw (kit.can_int-of_int k, kit.to_int-of_int k))

  pub put_int-message_count :
      {m n : IdentifyingModel (ExtendedData Time)} {r : ℕ} {t : ExtendedData Time} (o : Option ℤ)
      → At m r n t
      → At m r
          (put_int values o message_count_role r n)
          (record t { message_count = elim o [ none ↦ t.message_count | some k ↦ k ] })
  unfolding put_int
  put_int-message_count none a = a
  put_int-message_count (some k) a = put-message_count k a

  pub put_int-foreign_readings :
      {m n : IdentifyingModel (ExtendedData Time)} {r : ℕ} {t : ExtendedData Time} (o : Option ℤ)
      → At m r n t
      → At m r
          (put_int values o foreign_readings_role r n)
          (record t { foreign_readings = elim o [ none ↦ t.foreign_readings | some k ↦ k ] })
  unfolding put_int
  put_int-foreign_readings none a = a
  put_int-foreign_readings (some k) a = put-foreign_readings k a

  pub put_int-local_readings :
      {m n : IdentifyingModel (ExtendedData Time)} {r : ℕ} {t : ExtendedData Time} (o : Option ℤ)
      → At m r n t
      → At m r
          (put_int values o local_readings_role r n)
          (record t { local_readings = elim o [ none ↦ t.local_readings | some k ↦ k ] })
  unfolding put_int
  put_int-local_readings none a = a
  put_int-local_readings (some k) a = put-local_readings k a

  pub put-name :
      {m n : IdentifyingModel (ExtendedData Time)} {r : ℕ} {t : ExtendedData Time} (k : String)
      → At m r n t
      → At m r (put values (some r) (values.of_string k) name_role n) (record t { name = k })
  unfolding edit
  put-name k a =
      step _ (values.of_string k) name_role a (values.is_valid-of_string k) refl
        (rw (values.can_string-of_string k, values.to_string-of_string k))

  pub put_text-name :
      {m n : IdentifyingModel (ExtendedData Time)} {r : ℕ} {t : ExtendedData Time}
      (o : Option String)
      → At m r n t
      → At m r
          (put_text values o name_role r n)
          (record t { name = elim o [ none ↦ t.name | some k ↦ k ] })
  unfolding put_text
  put_text-name none a = a
  put_text-name (some k) a = put-name k a

  pub put-tag :
      {m n : IdentifyingModel (ExtendedData Time)} {r : ℕ} {t : ExtendedData Time} (k : String)
      → At m r n t
      → At m r (put values (some r) (values.of_string k) tag_role n) (record t { tag = k })
  unfolding edit
  put-tag k a =
      step _ (values.of_string k) tag_role a (values.is_valid-of_string k) refl
        (rw (values.can_string-of_string k, values.to_string-of_string k))

  pub put_text-tag :
      {m n : IdentifyingModel (ExtendedData Time)} {r : ℕ} {t : ExtendedData Time}
      (o : Option String)
      → At m r n t
      → At m r
          (put_text values o tag_role r n)
          (record t { tag = elim o [ none ↦ t.tag | some k ↦ k ] })
  unfolding put_text
  put_text-tag none a = a
  put_text-tag (some k) a = put-tag k a

  pub put-last_body :
      {m n : IdentifyingModel (ExtendedData Time)} {r : ℕ} {t : ExtendedData Time}
      (b : values.Bytes)
      → At m r n t
      → At m r
          (put values (some r) (values.of_bytes b) last_body_role n)
          (record t { last_body = values.to_string (values.of_bytes b) })
  unfolding edit
  put-last_body b a =
      step _ (values.of_bytes b) last_body_role a (values.is_valid-of_bytes b) refl
        (rw (values.can_string-of_bytes b))

  pub put-last_message_time :
      {m n : IdentifyingModel (ExtendedData Time)} {r : ℕ} {t : ExtendedData Time} (d : Time)
      → At m r n t
      → At m r
          (put values (some r) (values.of_time d) last_time_role n)
          (record t { last_message_time = d })
  unfolding edit
  put-last_message_time d a =
      step _ (values.of_time d) last_time_role a (values.is_valid-of_time d) refl
        (rw (values.can_time-of_time d, values.to_time-of_time d))

  pub put-local_uint :
      {m n : IdentifyingModel (ExtendedData Time)} {r : ℕ} {t : ExtendedData Time} (k : ℕ)
      → At m r n t
      → k < 2 ^ 31
      → At m r
          (put values (some r) (values.of_uint k) local_readings_role n)
          (record t { local_readings = pos k })
  unfolding edit
  put-local_uint k a lt =
      step _ (values.of_uint k) local_readings_role a (values.is_valid-of_uint k) refl
        (rw (values.can_int-of_uint k, values.to_int-of_uint k lt))

  -- The index of a model answers as before for every id.
  pub index_of-At :
      {m n : IdentifyingModel (ExtendedData Time)} {r : ℕ} {t : ExtendedData Time} (i : ℤ)
      → At m r n t
      → index_of values i n ≡ index_of values i m
  index_of-At {m} {n} {r} {t} i a =
      id_to_index-same kit (kind values) m n i a.index (ap length a.items ∙ length-set m.items r t)
