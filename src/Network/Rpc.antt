-- ===== src/Network/Rpc.antt =====
-- lib/network/rpc.h and rpc.cpp: the messages to and from the server, and their JSON.
pub mod RoundTrip
mod Tests
use chat_up.Base.{
  ℕ, zero, suc, ◌+◌, Bool, true, false, Option, none, some, List, [], ◌∷◌, String, ℤ, pos, negsuc,
  ◌==◌, string_eq, if◌then◌else◌,
}
use chat_up.Network.Json.{Json}

pub data ReplyStatus : Type 0 where
  unknown success error : ReplyStatus

abbrev pub invalid_id : ℤ
invalid_id = negsuc 0

pub record Reply (J : Type 0) : Type 0 where
  pub id : ℤ
  pub rep_to : ℤ
  pub error : Option String
  pub status : ReplyStatus
  pub reply : J

pub record MethodCall (J : Type 0) : Type 0 where
  pub id : ℤ
  pub method : String
  pub args : J

-- MessageConstructor::generateID with its static counter, which starts at 1
-- generateID(). `++i` on a static int: at 2 ^ 31 - 1 it is undefined, so the count is one below that.
pub generate_id : ℕ → ℕ × ℤ
generate_id i = (suc i, pos (suc i))

module _ (json : Json) where
  open json use {J}

  -- Reply::Reply(), MethodCall::MethodCall()
  pub empty_reply : Reply J
  empty_reply = record {
    id = invalid_id;
    rep_to = invalid_id;
    error = none;
    status = unknown;
    reply = json.null;
  }

  pub empty_call : MethodCall J
  empty_call = record { id = invalid_id; method = ""; args = json.null }

  -- The pairs of NLOHMANN_JSON_SERIALIZE_ENUM; what is in no pair reads as the first.
  pub status_to_json : ReplyStatus → J
  status_to_json unknown = json.null
  status_to_json success = json.of_string "success"
  status_to_json error = json.of_string "error"

  status_of_text : Option String → ReplyStatus
  status_of_text none = unknown
  status_of_text (some s) =
      if s == "success" then success else if s == "error" then error else unknown

  -- The members of a reply; an error string goes beside "data", not into it.
  with_error : Option String → J → J
  with_error none j = j
  with_error (some e) j = json.put "errorString" (json.of_string e) j

  abbrev pub reply_body : Reply J → List (String × J)
  reply_body p =
      ("responseTo", json.of_int p.rep_to)
      ∷ ("status", status_to_json p.status)
      ∷ ("return", p.reply)
      ∷ []

  abbrev pub reply_members : Reply J → List (String × J)
  reply_members p =
      ("type", json.of_string "response")
      ∷ ("messageID", json.of_int p.id)
      ∷ ("data", json.object (reply_body p))
      ∷ []

  pub reply_to_json : Reply J → J
  unfolding status_to_json with_error
  reply_to_json p = with_error p.error (json.object (reply_members p))

  -- data["status"].get<ReplyStatus>(); a missing key reads as null
  status_of : Option J → ReplyStatus
  unfolding status_of_text
  status_of none = unknown
  status_of (some j) = status_of_text (json.get_string j)

  -- data.value("return", json())
  value_or_null : Option J → J
  value_or_null none = json.null
  value_or_null (some j) = j

  -- p.error = data.at("errorString"), if it is there and a string
  error_of : Option J → Option String → Option String
  error_of none old = old
  error_of (some j) old = elim (json.get_string j) [ none ↦ old | some e ↦ some e ]

  -- from_json(json, Reply&): what was read before an exception stays.
  read_rest : J → Option ℤ → Reply J → Reply J
  unfolding value_or_null error_of
  read_rest body none p = p
  read_rest body (some to) p = record p {
    rep_to = to;
    reply = value_or_null (json.at body "return");
    error = error_of (json.at body "errorString") p.error;
  }

  int_at : J → String → Option ℤ
  int_at j k = elim (json.at j k) [ none ↦ none | some v ↦ json.get_int v ]

  -- data["status"] throws on what is neither an object nor null; null becomes an object without
  -- members, whose "responseTo" then throws.
  read_data : Option J → Reply J → Reply J
  unfolding read_rest status_of int_at
  read_data none p = p
  read_data (some body) p =
      if json.is_object body
      then read_rest body (int_at body "responseTo")
          (record p { status = status_of (json.at body "status") })
      else if json.is_null body
      then record p { status = unknown }
      else p

  read_id : J → Option ℤ → Reply J → Reply J
  unfolding read_data
  read_id j none p = p
  read_id j (some i) p = read_data (json.at j "data") (record p { id = i })

  pub reply_from_json : J → Reply J → Reply J
  unfolding read_id
  reply_from_json j p = read_id j (int_at j "messageID") p

  abbrev call_body : MethodCall J → List (String × J)
  call_body p = ("method", json.of_string p.method) ∷ ("args", p.args) ∷ []

  abbrev call_members : MethodCall J → List (String × J)
  call_members p =
      ("type", json.of_string "methodCall")
      ∷ ("messageID", json.of_int p.id)
      ∷ ("data", json.object (call_body p))
      ∷ []

  pub call_to_json : MethodCall J → J
  call_to_json p = json.object (call_members p)

  text_at : J → String → Option String
  text_at j k = elim (json.at j k) [ none ↦ none | some v ↦ json.get_string v ]

  read_call : Option J → MethodCall J → MethodCall J
  unfolding text_at value_or_null
  read_call none p = p
  read_call (some body) p = elim (text_at body "method") [
    | none ↦ p
    | some m ↦ record p { method = m; args = value_or_null (json.at body "args") }
  ]

  pub call_from_json : J → MethodCall J → MethodCall J
  unfolding read_call int_at
  call_from_json j p = elim (int_at j "messageID") [
    | none ↦ p
    | some i ↦ read_call (json.at j "data") (record p { id = i })
  ]

  -- MessageConstructor::replyMsg and methodCallMsg, with the counter before and after
  unfoldable pub reply_msg : ℤ → J → ℕ → ℕ × Reply J
  unfolding generate_id empty_reply
  reply_msg reply_to reply i =
      let (next, n) = generate_id i in
      (next, record empty_reply { id = n; rep_to = reply_to; reply = reply })

  unfoldable pub method_call_msg : String → J → ℕ → ℕ × MethodCall J
  unfolding generate_id empty_call
  method_call_msg method args i =
      let (next, n) = generate_id i in
      (next, record empty_call { id = n; method = method; args = args })
