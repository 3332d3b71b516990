-- ===== src/Core/UserModel/Rows.antt =====
-- lib/core/models/usermodel.h: which rows the user model reports when a handle changes.
use chat_up.Base.{ℕ, nat_beq, ◌≡◌, refl, List, [], ◌∷◌, ◌++◌, true, arith}
use chat_up.Core.UserModel.{
  UserModel, Connection, at_size, insert_handler, changed, reported_rows, row_count, row_of,
}

reported_rows-++ :
    (u n : ℕ) (cs ds : List Connection)
    → reported_rows u n (cs ++ ds) ≡ reported_rows u n cs ++ reported_rows u n ds
unfolding reported_rows
reported_rows-++ u n [] ds = refl
reported_rows-++ u n (c ∷ cs) ds = ground (arith, reported_rows-++ u n cs ds)

reported_rows-inserted :
    (u n : ℕ) → reported_rows u n (record { sender = u; reported = at_size } ∷ []) ≡ n ∷ []
unfolding reported_rows row_of
reported_rows-inserted u n = let e : nat_beq u u ≡ true = ground arith in rw e refl

-- A change of a handle that was inserted reports last the row after the last one of the model.
insert_handler-past :
    (u : ℕ) (m : UserModel)
    → changed u (insert_handler u m)
      ≡ reported_rows u (row_count (insert_handler u m)) m.connections
        ++ row_count (insert_handler u m) ∷ []
unfolding changed insert_handler
insert_handler-past u m = rw (reported_rows-++, reported_rows-inserted) refl
