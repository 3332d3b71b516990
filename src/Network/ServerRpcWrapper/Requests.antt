-- ===== src/Network/ServerRpcWrapper/Requests.antt =====
-- Every call has one entry until its reply comes (lib/network/serverrpcwrapper.cpp).
use chat_up.Base.{
  ℕ, suc, ◌+◌, ◌≡◌, refl, ap, subst, ◌∙◌, Option, none, some, [], ◌∷◌, String, ℤ, pos, int_eq,
  int_beq_iff, ◌==◌, if◌then◌else◌, arith,
}
use chat_up.Base.Map
use chat_up.Base.Map.{Map, lookup-emplace, lookup-erase, contains_lem}
use chat_up.Network.Json.{Json}
use chat_up.Network.Rpc.{Reply, success, empty_reply, reply_from_json, reply_to_json}
use chat_up.Network.Rpc.RoundTrip.{reply_from_json-to_json, at-with_error, reply-is_object}
use text.Mathlib.TextEquality.{eq_iff}
use chat_up.Network.ServerRpcWrapper.{
  Wrapper, started, finished, result, failed, internal_server_error, server_method, on_response,
  handle_text_message, type_of,
}

module _ {P H : Type 0} where
  -- The ids that the counter has not given out yet have no entry.
  abbrev pub IsFresh : Wrapper P H → Type 0
  IsFresh w = (n : ℕ) → Map.lookup (pos (suc (w.message_counter + n))) w.requests ≡ none

  next_unused :
      (w : Wrapper P H) → IsFresh w → Map.lookup (pos (suc w.message_counter)) w.requests ≡ none
  next_unused w fresh =
      subst (λ k. Map.lookup (pos (suc k)) w.requests ≡ none) (omega arith) (fresh 0)

module _ (json : Json) where
  open json use {J}

  type_of-reply : (r : Reply J) → type_of json (reply_to_json json r) ≡ some "response"
  unfolding type_of
  type_of-reply r = ground (
    arith,
    reply-is_object json r,
    at-with_error json r "type" (λ e. cc ((eq_iff "type" "errorString").1 e)),
    json.get_string-of_string "response",
  )

module _ (json : Json) {P H : Type 0} where
  open json use {J}

  registered :
      (w : Wrapper P H) (throws : Option String) (method : String) (args : J) (output : P) (j : ℤ)
      → Map.lookup (pos (suc w.message_counter)) w.requests ≡ none
      → Map.lookup j (server_method json throws method args output w).0.requests
        ≡ (if pos (suc w.message_counter) == j then some output else Map.lookup j w.requests)
  unfolding server_method
  registered w none method args output j e = ground (
    arith,
    lookup-emplace (pos (suc w.message_counter)) j output w.requests,
    contains_lem (pos (suc w.message_counter)) w.requests,
  )
  registered w (some what) method args output j e = ground (
    arith,
    lookup-emplace (pos (suc w.message_counter)) j output w.requests,
    contains_lem (pos (suc w.message_counter)) w.requests,
  )

  counted :
      (w : Wrapper P H) (throws : Option String) (method : String) (args : J) (output : P)
      → (server_method json throws method args output w).0.message_counter ≡ suc w.message_counter
  unfolding server_method
  counted w none method args output = refl
  counted w (some what) method args output = refl

  -- A call takes an id that no call waits under, and its promise is the one that waits under it; all
  -- other entries are as they were, and the ids that are still to come have none. So it is whether or
  -- not the transport throws.
  pub server_method-registers :
      (w : Wrapper P H) (throws : Option String) (method : String) (args : J) (output : P) (j : ℤ)
      → IsFresh w
      → let v = (server_method json throws method args output w).0 in
        let i : ℤ = pos (suc w.message_counter) in
        (Map.lookup i w.requests ≡ none)
        × (Map.lookup j v.requests ≡ (if i == j then some output else Map.lookup j w.requests))
        × IsFresh v
  server_method-registers w throws method args output j fresh =
      let unused = next_unused w fresh in
      (
        unused,
        registered w throws method args output j unused,
        λ n. ground (
          arith,
          registered w throws method args output
              (pos (suc ((server_method json throws method args output w).0.message_counter + n)))
              unused,
          counted w throws method args output,
          fresh (suc n),
        ),
      )

  text_response :
      (w : Wrapper P H) (leave : H → J → J) (j : J)
      → type_of json j ≡ some "response"
      → handle_text_message json leave (some j) w
        ≡ some (on_response json (reply_from_json json j (empty_reply json)) w)
  unfolding handle_text_message
  text_response w leave j e = rw (e, handle_text_message)

  settled :
      (w : Wrapper P H) (r : Reply J) (p : P)
      → Map.lookup r.rep_to w.requests ≡ some p
      → r.status ≡ success
      → on_response json r w ≡ (
        record w { requests = Map.erase r.rep_to w.requests },
        result p r.reply ∷ finished p ∷ [],
      )
  unfolding on_response
  settled w r p e st = ground arith

  -- A reply that reports success, as its sender writes it, ends the call that waits under the id it
  -- names: that call's promise has the result and is finished, the entry is gone, and nothing else
  -- of the state changes and nothing else is done.
  pub handle_text_message-success :
      (w : Wrapper P H) (leave : H → J → J) (r : Reply J) (p : P)
      → Map.lookup r.rep_to w.requests ≡ some p
      → r.status ≡ success
      → handle_text_message json leave (some (reply_to_json json r)) w
        ≡ some (
          record w { requests = Map.erase r.rep_to w.requests },
          result p r.reply ∷ finished p ∷ [],
        )
  handle_text_message-success w leave r p e st =
      text_response w leave (reply_to_json json r) (type_of-reply json r)
      ∙ ap (λ q. some (on_response json q w)) (reply_from_json-to_json json r (empty_reply json))
      ∙ ap some (settled w (record r { error = (empty_reply json).error }) p e st)

  -- A call whose message the transport does not take is not forgotten: its promise has the exception,
  -- and its entry waits on for a reply that nobody was asked for.
  pub server_method-stale :
      (w : Wrapper P H) (what method : String) (args : J) (output : P)
      → IsFresh w
      → let (v, fx) = server_method json (some what) method args output w in
        (fx ≡ started output ∷ failed output (internal_server_error what) ∷ [])
        × (Map.lookup (pos (suc w.message_counter)) v.requests ≡ some output)
  unfolding server_method
  server_method-stale w what method args output fresh = (
    refl,
    ground (
      arith,
      registered w (some what) method args output (pos (suc w.message_counter))
          (next_unused w fresh),
      int_beq_iff (pos (suc w.message_counter)) (pos (suc w.message_counter)),
    ),
  )
