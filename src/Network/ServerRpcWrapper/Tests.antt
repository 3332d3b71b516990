-- ===== src/Network/ServerRpcWrapper/Tests.antt =====
-- The theorems on the waiting calls (lib/network/serverrpcwrapper.cpp) at a call of `loginUser`.
use chat_up.Base.{suc, ◌+◌, ◌≡◌, refl, none, some, [], ◌∷◌, String, pos, int_eq}
use chat_up.Base.Map
use chat_up.Base.Map.{Map, lookup-empty, lookup-emplace, contains_lem}
use chat_up.Network.Sample.{sample}
use chat_up.Network.Rpc.{Reply, success, reply_to_json}
use chat_up.Network.ServerRpcWrapper.{
  Wrapper, finished, result, init, server_method, handle_text_message,
}
use chat_up.Network.ServerRpcWrapper.Requests.{
  IsFresh, server_method-registers, handle_text_message-success,
}

-- A promise and a handler are given by their names.
abbrev new : Wrapper String String
new = init 1

new-IsFresh : IsFresh new
unfolding init
new-IsFresh n = lookup-empty (pos (suc (1 + n)))

abbrev called : Wrapper String String
called = (server_method sample none "loginUser" sample.null "login" new).0

abbrev answer : Reply sample.J
answer = record {
  id = pos 30;
  rep_to = pos 2;
  error = none;
  status = success;
  reply = sample.of_int (pos 5);
}

waiting : Map.lookup (pos 2) called.requests ≡ some "login"
unfolding init
waiting =
    (server_method-registers sample new none "loginUser" sample.null "login" (pos 2) new-IsFresh).1

handle_text_message-success_example :
    handle_text_message sample (λ h j. j) (some (reply_to_json sample answer)) called
    ≡ some (
      record called { requests = Map.erase (pos 2) called.requests },
      result "login" (sample.of_int (pos 5)) ∷ finished "login" ∷ [],
    )
handle_text_message-success_example =
    handle_text_message-success sample called (λ h j. j) answer "login" waiting refl
