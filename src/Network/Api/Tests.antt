-- ===== src/Network/Api/Tests.antt =====
-- The theorems on what is sent and read (lib/network/api, lib/core/data.cpp) at a few values. Times and
-- bodies are texts.
use chat_up.Base.{◌≡◌, ℤ, true, false, [], ◌∷◌, String, string_eq, pos}
use chat_up.Base.Map
use chat_up.Base.Map.{Map}
use chat_up.Core.User.{UserData, online, new_handle}
use chat_up.Core.Group.{ExtendedData}
use chat_up.Core.Message.{MessageData}
use chat_up.Core.Participate.{ParticipateData, new_participate}
use chat_up.Network.Sample.{sample}
use chat_up.Network.Rpc.{call_to_json, method_call_msg}
use chat_up.Network.ServerRpcWrapper.{Wrapper, init}
use chat_up.Network.Api.Data.{
  Texts, new_group, user_to_json, user_from_json, group_to_json, group_from_json, extended_to_json,
  extended_from_json, message_to_json, message_from_json, participate_to_json,
  participate_from_json,
}
use chat_up.Network.Api.Data.Unread.{from_json-to_json}
use chat_up.Network.Api.Data.Read.{extended_members, extended_from_json-null_name}
use chat_up.Network.Api.Requests.{Description, Candidate, send_description, send_candidate}

abbrev texts : Texts String String
texts = record {
  time_of_text = λ s. s;
  text_of_time = λ s. s;
  bytes_of_text = λ s. s;
  text_of_bytes = λ s. s;
}

abbrev ann : UserData
ann = record { status = online; name = "Ann"; tag = "ann"; id = pos 4 }

abbrev team : ExtendedData String
team = record {
  id = pos 9;
  message_count = pos 12;
  foreign_readings = pos 3;
  local_readings = pos 5;
  last_sender = pos 4;
  last_message_time = "2024-05-01T10:00:00";
  last_body = "hello";
  name = "team";
  tag = "t";
}

abbrev empty_team : ExtendedData String
empty_team = record {
  id = pos 0;
  message_count = pos 0;
  foreign_readings = pos 0;
  local_readings = pos 0;
  last_sender = pos 0;
  last_message_time = "";
  last_body = "";
  name = "";
  tag = "";
}

abbrev hello : MessageData String String
hello = record {
  id = pos 70;
  user_id = pos 4;
  room_id = pos 9;
  time = "2024-05-01T10:00:00";
  body = "hello";
  message_index = 11;
}

abbrev no_message : MessageData String String
no_message = record {
  id = pos 0;
  user_id = pos 0;
  room_id = pos 0;
  time = "";
  body = "";
  message_index = 0;
}

abbrev speaker : ParticipateData
speaker = record { user_id = pos 4; room_id = pos 9; has_audio = true; has_video = false }

from_json-to_json_example :
    (user_from_json sample (user_to_json sample ann) new_handle ≡ new_handle)
    × (group_from_json sample
          (group_to_json sample (record { id = pos 9; name = "team"; tag = "t" }))
          new_group
        ≡ new_group)
    × (extended_from_json sample texts (extended_to_json sample texts team) empty_team ≡ empty_team)
    × (message_from_json sample texts (message_to_json sample texts hello) no_message ≡ no_message)
    × (participate_from_json sample (participate_to_json sample speaker) new_participate
        ≡ new_participate)
from_json-to_json_example =
    from_json-to_json sample texts ann new_handle (record { id = pos 9; name = "team"; tag = "t" })
      new_group team empty_team hello no_message speaker new_participate

extended_from_json-null_name_example :
    extended_from_json sample texts
      (sample.object (extended_members sample texts team "2024-05-01T10:00:00" sample.null))
      empty_team
    ≡ record empty_team { id = pos 9; message_count = pos 12 }
extended_from_json-null_name_example =
    extended_from_json-null_name sample texts team empty_team "2024-05-01T10:00:00"

-- A wrapper whose promises and handlers are named.
abbrev client : Wrapper String String
client = record (init {P = String} {H = String} 5) {
  client_handlers =
      Map.insert "RtcCandidate" ("candidates" ∷ [])
        (Map.insert "RtcDescription" ("descriptions" ∷ []) Map.empty);
}

abbrev offer : Description
offer = record { id = pos 4; description = "v=0"; type = "offer" }

abbrev path : Candidate
path = record { id = pos 4; candidate = "udp"; mid = "0" }

-- A server that passes the offer and the path on with the id of the sender.
abbrev relay_offer : ℤ → sample.J → sample.J
relay_offer sender j =
    call_to_json sample
      (method_call_msg sample "RtcDescription"
        (send_description sample (record offer { id = sender })).args 6).1

abbrev relay_path : ℤ → sample.J → sample.J
relay_path sender j =
    call_to_json sample
      (method_call_msg sample "RtcCandidate"
        (send_candidate sample (record path { id = sender })).args 6).1
