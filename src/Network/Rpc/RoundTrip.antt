-- ===== src/Network/Rpc/RoundTrip.antt =====
-- What a message is after a trip through its JSON (lib/network/rpc.cpp).
use chat_up.Base.{
  ◌≡◌, ◌≢◌, ◌∙◌, refl, false, true, inl, inr, ◌==◌, string_eq, Option-cases, String, some, arith,
}
use text.Mathlib.TextEquality.{eq_iff}
use chat_up.Network.Json.{Json, member?}
use chat_up.Network.Rpc.{
  Reply, ReplyStatus, unknown, success, error, MethodCall, status_to_json, status_of, with_error,
  reply_to_json, reply_body, reply_members, call_body, call_members, reply_from_json, call_to_json,
  call_from_json,
}

module _ (json : Json) where
  open json use {J}

  -- A call reads back from its JSON as it was written, whatever was in the target before.
  pub call_from_json-to_json :
      (p q : MethodCall J) → call_from_json json (call_to_json json p) q ≡ p
  unfolding call_from_json call_to_json
  call_from_json-to_json p q = ground (
    arith,
    json.at-object (call_members json p) "messageID",
    json.at-object (call_members json p) "data",
    json.at-object (call_body json p) "method",
    json.at-object (call_body json p) "args",
    json.get_int-of_int p.id,
    json.get_string-of_string p.method,
  )

  status_of-to_json : (s : ReplyStatus) → status_of json (some (status_to_json json s)) ≡ s
  unfolding status_of status_to_json
  status_of-to_json unknown = rw json.get_string-null
  status_of-to_json success = rw (json.get_string-of_string "success")
  status_of-to_json error = rw (json.get_string-of_string "error")

  -- The members of a reply are found whether or not an error string stands beside them.
  pub at-with_error :
      (p : Reply J) (k : String)
      → k ≢ "errorString"
      → json.at (reply_to_json json p) k ≡ member? k (reply_members json p)
  unfolding reply_to_json with_error
  at-with_error p k ne = elim (Option-cases p.error) [
    | inl e ↦ rw e (json.at-object (reply_members json p) k)
    | inr (t, e) ↦
        let apart : ("errorString" == k) ≡ false = ground (arith, eq_iff "errorString" k) in
        rw (e, json.put-object "errorString" (json.of_string t) (reply_members json p) refl)
          (json.at-object _ k ∙ rw apart refl)
  ]

  -- A reply reads back from its JSON as it was written, but for its error string: the writer puts it
  -- beside "data" and the reader looks for it in "data", so the target keeps the error that it had.
  pub reply_from_json-to_json :
      (p q : Reply J) → reply_from_json json (reply_to_json json p) q ≡ record p { error = q.error }
  unfolding reply_from_json
  reply_from_json-to_json p q = ground (
    arith,
    at-with_error p "messageID" (λ e. cc ((eq_iff "messageID" "errorString").1 e)),
    at-with_error p "data" (λ e. cc ((eq_iff "data" "errorString").1 e)),
    json.at-object (reply_body json p) "responseTo",
    json.at-object (reply_body json p) "status",
    json.at-object (reply_body json p) "return",
    json.at-object (reply_body json p) "errorString",
    json.is_object-object (reply_body json p),
    json.get_int-of_int p.id,
    json.get_int-of_int p.rep_to,
    status_of-to_json p.status,
  )

  pub reply-is_object : (p : Reply J) → json.is_object (reply_to_json json p) ≡ true
  unfolding reply_to_json with_error
  reply-is_object p = elim (Option-cases p.error) [
    | inl e ↦ rw e (json.is_object-object (reply_members json p))
    | inr (t, e) ↦
        rw (e, json.put-object "errorString" (json.of_string t) (reply_members json p) refl)
          (json.is_object-object _)
  ]

  pub call-is_object : (p : MethodCall J) → json.is_object (call_to_json json p) ≡ true
  unfolding call_to_json
  call-is_object p = json.is_object-object (call_members json p)

  pub at-call_type :
      (p : MethodCall J) → json.at (call_to_json json p) "type" ≡ some (json.of_string "methodCall")
  unfolding call_to_json
  at-call_type p = json.at-object (call_members json p) "type"
