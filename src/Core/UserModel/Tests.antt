-- ===== src/Core/UserModel/Tests.antt =====
-- lib/core/models/usermodel.h: a model of a few handles.
use chat_up.Base.{◌≡◌, refl, [], ◌∷◌}
use chat_up.Core.UserModel.{
  init, reset, insert_handler, changed, row_count, connect_rows, reported_rows, row_of,
}

-- After a second reset a handle is reported at its old row too.
reset_twice : changed 5 (reset (7 ∷ 5 ∷ []) (reset (5 ∷ []) init)) ≡ 0 ∷ 1 ∷ []
unfolding changed reset connect_rows reported_rows row_of row_count init
reset_twice = refl

-- An inserted handle is reported after the last row.
inserted_past : changed 5 (insert_handler 5 (reset (7 ∷ []) init)) ≡ 2 ∷ []
unfolding changed insert_handler reset connect_rows reported_rows row_of row_count init
inserted_past = refl
