-- ===== src/Network/Rpc/Tests.antt =====
-- The theorems on messages (lib/network/rpc.cpp) at a call and at a reply.
use chat_up.Base.{◌≡◌, some, pos, negsuc}
use chat_up.Network.Sample.{sample}
use chat_up.Network.Rpc.{Reply, error, MethodCall, empty_reply, reply_to_json, reply_from_json}
use chat_up.Network.Rpc.RoundTrip.{reply_from_json-to_json}

abbrev login : MethodCall sample.J
login = record { id = pos 4; method = "loginUser"; args = sample.of_string "bob" }

abbrev refusal : Reply sample.J
refusal = record {
  id = pos 12;
  rep_to = pos 4;
  error = some "wrong password";
  status = error;
  reply = sample.of_int (negsuc 2);
}

reply_from_json-to_json_example :
    reply_from_json sample (reply_to_json sample refusal) (empty_reply sample)
    ≡ record refusal { error = (empty_reply sample).error }
reply_from_json-to_json_example = reply_from_json-to_json sample refusal (empty_reply sample)
