-- ===== src/Network/ServerRpcWrapper/Calls.antt =====
-- Calls that the server makes (lib/network/serverrpcwrapper.cpp).
use chat_up.Base.{◌≡◌, refl, some, [], ◌∷◌, string_eq}
use chat_up.Base.Map
use chat_up.Network.Json.{Json}
use chat_up.Network.Rpc.{MethodCall, call_to_json, empty_call}
use chat_up.Network.Rpc.RoundTrip.{call_from_json-to_json, call-is_object, at-call_type}
use chat_up.Network.ServerRpcWrapper.{
  Wrapper, handler_called, on_method_call, handle_text_message, type_of, dispatch, handlers_of,
  call_all,
}

module _ (json : Json) where
  open json use {J}

  type_of-call : (call : MethodCall J) → type_of json (call_to_json json call) ≡ some "methodCall"
  unfolding type_of
  type_of-call call =
      rw (call-is_object json call, at-call_type json call, json.get_string-of_string) refl

module _ (json : Json) {P H : Type 0} where
  open json use {J}

  -- The message of a call leaves the wrapper as it is, and runs the handlers of its method on its
  -- arguments.
  pub handle_text_message-call :
      (leave : H → J → J) (call : MethodCall J) (w : Wrapper P H)
      → handle_text_message json leave (some (call_to_json json call)) w
        ≡ some (on_method_call json leave call w)
  unfolding handle_text_message dispatch
  handle_text_message-call leave call w =
      rw
        (
          handle_text_message,
          type_of-call json call,
          call_from_json-to_json json call (empty_call json),
        )
        refl

  -- The only handler of a method is called once.
  pub on_method_call-one :
      (leave : H → J → J) (call : MethodCall J) (w : Wrapper P H) (h : H)
      → Map.lookup call.method w.client_handlers ≡ some (h ∷ [])
      → on_method_call json leave call w ≡ (w, handler_called h call.args ∷ [])
  unfolding on_method_call call_all handlers_of
  on_method_call-one leave call w h e =
      let only : handlers_of call.method w ≡ h ∷ [] = rw (handlers_of, e) refl in
      rw (on_method_call, only) refl
