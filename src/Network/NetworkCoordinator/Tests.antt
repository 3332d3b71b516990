-- ===== src/Network/NetworkCoordinator/Tests.antt =====
-- The theorems on the queues of calls (lib/network/networkcoordinator.cpp) at a few calls.
use chat_up.Base.{◌≡◌, refl, true, false, [], ◌∷◌, ◌++◌, String}
use chat_up.Network.NetworkCoordinator.{
  NetworkCoordinator, authorized_call, direct_call, served, init, server_method, thread_round,
  reconnect, next_answer,
}
use chat_up.Network.NetworkCoordinator.Order.{
  asked, waiting, OnlyWaits, outcome, thread_round-serves,
}

-- Arguments, promises and callbacks are given by their names.
abbrev asked_users : NetworkCoordinator String String String
asked_users = (server_method "readUser" "5" "user" authorized_call init).0

abbrev asked_both : NetworkCoordinator String String String
asked_both = (server_method "loginUser" "bob" "login" direct_call asked_users).0

thread_round-serves_example :
    let (pauses, later) =
      reconnect {J = String} {P = String} {H = String} asked_both.reconnection_count
        (false ∷ false ∷ true ∷ true ∷ []) in
    (d : NetworkCoordinator String String String) × (thread_round
        (false ∷ false ∷ true ∷ true ∷ [])
        asked_both
      ≡ served d (
          pauses ++ outcome (next_answer later) (asked direct_call "loginUser" "bob" "login") ∷ []))
    × (waiting d ≡ asked authorized_call "readUser" "5" "user" ∷ [])
    × OnlyWaits pauses
unfolding init server_method
thread_round-serves_example =
    thread_round-serves asked_both (false ∷ false ∷ true ∷ true ∷ [])
      (asked direct_call "loginUser" "bob" "login")
      (asked authorized_call "readUser" "5" "user" ∷ []) refl refl
