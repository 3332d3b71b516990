-- ===== src/Network/NetworkCoordinator.antt =====
-- lib/network/networkcoordinator.h and networkcoordinator.cpp: the two queues of calls and the thread
-- that serves them. The state is what `_mutex` guards. Calls of the ServerRPCWrapper are effects, and
-- what `isConnected` answers is an argument: one answer for each time that the thread asks.
pub mod Order
mod Tests
use chat_up.Base.{
  ℕ, zero, suc, ◌+◌, Bool, true, false, not, ◌||◌, ◌&&◌, Option, none, some, List, [], ◌∷◌, ◌++◌,
  String, ℤ, pos, if◌then◌else◌,
}
use chat_up.Network.Json.{Json}

pub data Priority : Type 0 where
  authorized_call direct_call : Priority

pub record MethodInfo (J P : Type 0) : Type 0 where
  pub method : String
  pub args : J
  pub prom : P
  pub priority : Priority

pub record Credentials : Type 0 where
  pub login : String
  pub password : String

-- User::invalidID
abbrev pub invalid_user : ℤ
invalid_user = pos 0

pub record NetworkCoordinator (J P H : Type 0) : Type 0 where
  pub credentials : Credentials
  pub authorized_calls : List (MethodInfo J P)
  pub direct_calls : List (MethodInfo J P)
  pub active : Bool
  pub disconnected_cb : Option H
  pub reconnection_count : ℕ
  pub user : ℤ

pub data Effect (J P H : Type 0) : Type 0 where
  started : P → Effect J P H
  notified : Effect J P H
  connect_waited slept disconnected : Effect J P H
  not_responding : P → Effect J P H
  passed_on : MethodInfo J P → Effect J P H
  callback_called : H → Effect J P H

-- What a round of the thread comes to.
pub data Round (J P H : Type 0) : Type 0 where
  waits stops undefined : Round J P H
  served : NetworkCoordinator J P H → List (Effect J P H) → Round J P H

pub next_answer : List Bool → Bool
next_answer [] = false
next_answer (b ∷ bs) = b

module _ {J P : Type 0} where
  pub is_empty : List (MethodInfo J P) → Bool
  is_empty [] = true
  is_empty (x ∷ xs) = false

module _ {J P H : Type 0} where
  pub init : NetworkCoordinator J P H
  init = record {
    credentials = record { login = ""; password = "" };
    authorized_calls = [];
    direct_calls = [];
    active = true;
    disconnected_cb = none;
    reconnection_count = 5;
    user = invalid_user;
  }

  pub disconnect : NetworkCoordinator J P H → NetworkCoordinator J P H × List (Effect J P H)
  disconnect c = (record c { user = invalid_user }, disconnected ∷ [])

  pub set_credentials : Credentials → NetworkCoordinator J P H → NetworkCoordinator J P H
  set_credentials other c = record c { credentials = other }

  pub set_reconnection_count : ℕ → NetworkCoordinator J P H → NetworkCoordinator J P H
  set_reconnection_count other c = record c { reconnection_count = other }

  pub on_disconnected : H → NetworkCoordinator J P H → NetworkCoordinator J P H
  on_disconnected cb c = record c { disconnected_cb = some cb }

  -- The callback that the constructor gives to `ServerRPCWrapper::onClosed`.
  pub rpc_closed : NetworkCoordinator J P H → List (Effect J P H)
  rpc_closed c = elim c.disconnected_cb [ none ↦ [] | some cb ↦ callback_called cb ∷ [] ]

  -- The continuation of the login in `initialize`.
  pub logged_in : ℤ → NetworkCoordinator J P H → NetworkCoordinator J P H × List (Effect J P H)
  logged_in id c = (record c { user = id }, notified ∷ [])

  -- serverMethod: a direct call goes to the back of its queue, an authorized one to the front.
  pub server_method :
      String
      → J
      → P
      → Priority
      → NetworkCoordinator J P H
      → NetworkCoordinator J P H × List (Effect J P H)
  server_method method args prom direct_call c =
      let info : MethodInfo J P = record {
        method = method;
        args = args;
        prom = prom;
        priority = direct_call;
      } in
      (record c { direct_calls = c.direct_calls ++ info ∷ [] }, started prom ∷ notified ∷ [])
  server_method method args prom authorized_call c =
      let info : MethodInfo J P = record {
        method = method;
        args = args;
        prom = prom;
        priority = authorized_call;
      } in
      (record c { authorized_calls = info ∷ c.authorized_calls }, started prom ∷ notified ∷ [])

  pub take_authorized :
      List (MethodInfo J P)
      → NetworkCoordinator J P H
      → Option (MethodInfo J P × NetworkCoordinator J P H)
  take_authorized [] c = none
  take_authorized (info ∷ rest) c = some (info, record c { authorized_calls = rest })

  pub take_direct :
      List (MethodInfo J P)
      → NetworkCoordinator J P H
      → Option (MethodInfo J P × NetworkCoordinator J P H)
  unfolding take_authorized
  take_direct [] c = take_authorized c.authorized_calls c
  take_direct (info ∷ rest) c = some (info, record c { direct_calls = rest })

  -- takeMethod; `none` is the end of the function without a return, which is undefined behaviour
  pub take_method : NetworkCoordinator J P H → Option (MethodInfo J P × NetworkCoordinator J P H)
  unfolding take_direct
  take_method c = take_direct c.direct_calls c

  -- The predicate that the thread waits for.
  pub has_work : NetworkCoordinator J P H → Bool
  unfolding is_empty
  has_work c = not (is_empty c.direct_calls) || not (is_empty c.authorized_calls) || not c.active

  -- The `for` loop that reconnects: at most `n` rounds. The answers of `isConnected` come as a list,
  -- two for a round (before the connection, and after it for the sleep); past its end they are no.
  pub reconnect : ℕ → List Bool → List (Effect J P H) × List Bool
  reconnect zero answers = ([], answers)
  reconnect (suc n) [] = let (fx, rest) = reconnect n [] in (connect_waited ∷ slept ∷ fx, rest)
  reconnect (suc n) (true ∷ answers) = ([], answers)
  reconnect (suc n) (false ∷ []) =
      let (fx, rest) = reconnect n [] in (connect_waited ∷ slept ∷ fx, rest)
  reconnect (suc n) (false ∷ true ∷ answers) =
      let (fx, rest) = reconnect n answers in (connect_waited ∷ fx, rest)
  reconnect (suc n) (false ∷ false ∷ answers) =
      let (fx, rest) = reconnect n answers in (connect_waited ∷ slept ∷ fx, rest)

  pub finish :
      Bool → List (Effect J P H) → Option (MethodInfo J P × NetworkCoordinator J P H) → Round J P H
  finish connected fx none = undefined
  finish true fx (some (info, c)) = served c (fx ++ passed_on info ∷ [])
  finish false fx (some (info, c)) = served c (fx ++ not_responding info.prom ∷ [])

  -- One round of `threadFunc`, with the answers of `isConnected` in it.
  pub thread_round : List Bool → NetworkCoordinator J P H → Round J P H
  unfolding finish has_work next_answer
  thread_round answers c =
      if not (has_work c)
      then waits
      else if not c.active
      then stops
      else let (fx, rest) = reconnect c.reconnection_count answers in
        finish (next_answer rest) fx (take_method c)

module _ (json : Json) where
  open json use {J}

  -- The arguments that `Api::Login::exec` sends.
  login_args : Credentials → J
  login_args c =
      json.object (("login", json.of_string c.login) ∷ ("password", json.of_string c.password) ∷ [])

module _ (json : Json) {P H : Type 0} where
  open json use {J}

  -- initialize: the login as a direct call; `logged_in` is its continuation
  pub initialize : P → NetworkCoordinator J P H → NetworkCoordinator J P H × List (Effect J P H)
  unfolding login_args
  initialize prom c = server_method "loginUser" (login_args json c.credentials) prom direct_call c
