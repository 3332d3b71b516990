-- ===== src/Network/ServerRpcWrapper.antt =====
-- lib/network/serverrpcwrapper.h and serverrpcwrapper.cpp: the calls that wait for a reply, the
-- handlers of the server's calls, and the connection. A method is a function on the state that also
-- gives what it does outside, in order. A promise of a caller is a value of type `P`, a callback one
-- of type `H`. What the transport throws is an argument. The task of `onError` or `onClosed` is one
-- step; logging is left out.
pub mod Requests
pub mod Calls
mod Tests
use chat_up.Base.{
  ℕ, zero, suc, ◌+◌, Bool, true, false, Option, none, some, List, [], ◌∷◌, ◌++◌, String, ℤ, int_eq,
  ◌==◌, string_eq, if◌then◌else◌,
}
use chat_up.Base.Map
use chat_up.Base.Map.{Map}
use chat_up.Network.Json.{Json}
use chat_up.Network.Rpc.{
  Reply, ReplyStatus, unknown, success, error, MethodCall, empty_reply, empty_call, reply_from_json,
  call_from_json, method_call_msg,
}

-- `setException`: of a MethodCallFailure with its message and NetworkError, or of a std::string
pub data Failure : Type 0 where
  connection_refused internal_server_error thrown : String → Failure

pub data Effect (J P H : Type 0) : Type 0 where
  started finished : P → Effect J P H
  result : P → J → Effect J P H
  failed : P → Failure → Effect J P H
  connection_started connection_finished : ℕ → Effect J P H
  connection_failed : ℕ → Failure → Effect J P H
  opened sent_close : Effect J P H
  sent : MethodCall J → Effect J P H
  handler_called : H → J → Effect J P H
  closed_called : H → Effect J P H

pub record Wrapper (P H : Type 0) : Type 0 where
  pub is_connected : Bool
  pub requests : Map ℤ P
  pub client_handlers : Map String (List H)
  -- the connection promise, by its number; the next one
  pub connection_promise : Option ℕ
  pub next_promise : ℕ
  pub closed_cb : Option H
  -- the static counter of `MessageConstructor::generateID`
  pub message_counter : ℕ

module _ {P H : Type 0} where
  pub init : ℕ → Wrapper P H
  init counter = record {
    is_connected = false;
    requests = Map.empty;
    client_handlers = Map.empty;
    connection_promise = none;
    next_promise = 0;
    closed_cb = none;
    message_counter = counter;
  }

  pub on_closed : H → Wrapper P H → Wrapper P H
  on_closed cb w = record w { closed_cb = some cb }

  handlers_of : String → Wrapper P H → List H
  handlers_of m w = elim (Map.lookup m w.client_handlers) [ none ↦ [] | some hs ↦ hs ]

  pub add_client_handler : H → String → Wrapper P H → Wrapper P H
  unfolding handlers_of
  add_client_handler h m w = record w {
    client_handlers = Map.insert m (handlers_of m w ++ h ∷ []) w.client_handlers;
  }

module _ (json : Json) where
  open json use {J}

  -- parsed.value("type", ""); `none` is an exception
  pub type_of : J → Option String
  type_of j =
      if json.is_object j
      then elim (json.at j "type") [ none ↦ some "" | some v ↦ json.get_string v ]
      else none

module _ (json : Json) {P H : Type 0} where
  open json use {J}

  pub disconnect : Wrapper P H → Wrapper P H × List (Effect J P H)
  disconnect w = (w, sent_close ∷ [])

  pub handle_connection_error : String → Wrapper P H → Wrapper P H × List (Effect J P H)
  handle_connection_error desc w = elim w.connection_promise [
    | none ↦ (w, [])
    | some n ↦
        (record w { connection_promise = none }, connection_failed n (connection_refused desc) ∷ [])
  ]

  -- connect(), with what `open` throws, and the promise whose future it returns. `none` there is the
  -- null pointer that the last line reads.
  pub connect : Option String → Wrapper P H → Wrapper P H × List (Effect J P H) × Option ℕ
  unfolding handle_connection_error
  connect throws w = elim w.connection_promise [
    | some n ↦ (w, [], some n)
    | none ↦
        let n = w.next_promise in
        let v : Wrapper P H = record w { connection_promise = some n; next_promise = suc n } in
        elim throws [
          | none ↦ (v, connection_started n ∷ opened ∷ [], v.connection_promise)
          | some what ↦
              let (u, fx) = handle_connection_error what v in
              (u, connection_started n ∷ opened ∷ fx, u.connection_promise)
        ]
  ]

  -- The callbacks of the transport: onOpen, and the tasks of onClosed and onError.
  pub transport_open : Wrapper P H → Wrapper P H × List (Effect J P H)
  transport_open w = elim w.connection_promise [
    | none ↦ (w, [])
    | some n ↦
        (record w { is_connected = true; connection_promise = none }, connection_finished n ∷ [])
  ]

  call_closed : Option H → List (Effect J P H)
  call_closed none = []
  call_closed (some cb) = closed_called cb ∷ []

  pub transport_closed : Wrapper P H → Wrapper P H × List (Effect J P H)
  unfolding call_closed
  transport_closed w =
      if w.is_connected
      then (record w { is_connected = false }, call_closed w.closed_cb)
      else (w, [])

  pub transport_error : String → Wrapper P H → Wrapper P H × List (Effect J P H)
  unfolding handle_connection_error
  transport_error err w = handle_connection_error err w

  -- handleError(desc, promise)
  pub handle_error : String → P → List (Effect J P H)
  handle_error desc p = failed p (internal_server_error desc) ∷ []

  -- serverMethod, with what `send` throws
  pub server_method :
      Option String → String → J → P → Wrapper P H → Wrapper P H × List (Effect J P H)
  unfolding method_call_msg handle_error
  server_method throws method args output w =
      let (counter, out_msg) = method_call_msg json method args w.message_counter in
      let v : Wrapper P H = record w {
        requests = Map.emplace out_msg.id output w.requests;
        message_counter = counter;
      } in
      elim throws [
        | none ↦ (v, started output ∷ sent out_msg ∷ [])
        | some what ↦ (v, started output ∷ handle_error what output)
      ]

  settle : Reply J → P → List (Effect J P H)
  settle r p = elim r.status [
    | error ↦ failed p (thrown (elim r.error [ none ↦ "" | some e ↦ e ])) ∷ []
    | success ↦ result p r.reply ∷ finished p ∷ []
    | unknown ↦ failed p (thrown "Unknown error") ∷ []
  ]

  pub on_response : Reply J → Wrapper P H → Wrapper P H × List (Effect J P H)
  unfolding settle
  on_response r w = elim (Map.lookup r.rep_to w.requests) [
    | none ↦ (w, [])
    | some p ↦ (record w { requests = Map.erase r.rep_to w.requests }, settle r p)
  ]

  -- Each handler is given the arguments that the one before has left, since it may move from them.
  call_all : (H → J → J) → List H → J → List (Effect J P H)
  call_all leave [] args = []
  call_all leave (h ∷ hs) args = handler_called h args ∷ call_all leave hs (leave h args)

  pub on_method_call : (H → J → J) → MethodCall J → Wrapper P H → Wrapper P H × List (Effect J P H)
  unfolding call_all handlers_of
  on_method_call leave call w = (w, call_all leave (handlers_of call.method w) call.args)

  dispatch : (H → J → J) → J → String → Wrapper P H → Wrapper P H × List (Effect J P H)
  unfolding on_response on_method_call
  dispatch leave j type w =
      if type == "response"
      then on_response (reply_from_json json j (empty_reply json)) w
      else if type == "methodCall"
      then on_method_call leave (call_from_json json j (empty_call json)) w
      else (w, [])

  -- handleTextMessage, with the message as `json::parse` gives it. `none` is an exception that
  -- leaves the callback: of the parser, or of a message with no readable "type".
  pub handle_text_message :
      (H → J → J) → Option J → Wrapper P H → Option (Wrapper P H × List (Effect J P H))
  unfolding type_of dispatch
  handle_text_message leave none w = none
  handle_text_message leave (some j) w = elim (type_of json j) [
    | none ↦ none
    | some type ↦ some (dispatch leave j type w)
  ]
