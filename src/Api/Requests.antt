-- ===== src/Api/Requests.antt =====
-- The answers on a web socket: each names its request, and nothing empty is submitted.
use smallgod.Prelude.{
  ℕ, ◌≡◌, refl, Bool, true, false, Option, none, some, List, [], ◌∷◌, All, All-append, Result, ok,
  err, panic,
}
use smallgod.RpcClient.{Node}
use smallgod.ClientState.{State}
use smallgod.Api.Blocks.{ApiError, bad_request_unknown, bad_request, internal_server_error}
use smallgod.Api.Sockets.{
  Config, Transaction, is_empty, Payload, version_payload, status_payload, submit_payload, Request,
  Socket, WsResponse, version_response, status_response, data_transaction_submitted, submitted,
  submit_with, handle_payload, handle_parsed, handle_request, Incoming, receive_failed,
  other_message, text_message, connect,
}

module _ (config : Config) (socket : Socket) where
  -- The answer names the request, but for a submission that failed.
  unfoldable Names : ℕ → Result ApiError (WsResponse config socket) → Type 0
  Names id panic = ⊥
  Names id (err (bad_request j)) = j ≡ id
  Names id (err internal_server_error) = Unit
  Names id (err _) = ⊥
  Names id (ok (version_response j v)) = j ≡ id
  Names id (ok (status_response j v)) = j ≡ id
  Names id (ok (data_transaction_submitted j v)) = j ≡ id

  -- A message that is no request has an error without an id.
  unfoldable NamesRequest : Option Request → Result ApiError (WsResponse config socket) → Type 0
  NamesRequest none answer = answer ≡ err bad_request_unknown
  NamesRequest (some request) answer = Names request.request_id answer

  -- One answer for each text message, in order.
  pub AllAnswered :
      List (Incoming config socket) → List (Result ApiError (WsResponse config socket)) → Type 0
  AllAnswered [] [] = Unit
  AllAnswered [] (answer ∷ answers) = ⊥
  AllAnswered (receive_failed ∷ incoming) answers = AllAnswered incoming answers
  AllAnswered (other_message ∷ incoming) answers = AllAnswered incoming answers
  AllAnswered (text_message s node message ∷ incoming) [] = ⊥
  AllAnswered (text_message s node message ∷ incoming) (answer ∷ answers) =
      NamesRequest (socket.parse_request message) answer × AllAnswered incoming answers

  abbrev AreFull : List Transaction → Type 0
  AreFull transactions = All (λ t. is_empty t ≡ false) transactions

  submitted-Names :
      (id : ℕ) (t : Transaction) (response : Option socket.SubmitResponse)
      → is_empty t ≡ false
      → Names id (submitted config socket id t response).1
        × AreFull (submitted config socket id t response).0
  unfolding submitted Names
  submitted-Names id t none e = (tt, (e, tt))
  submitted-Names id t (some response) e = (refl, (e, tt))

  submit_with-Names :
      (id : ℕ) (t : Transaction) (submit : Option (Transaction → Option socket.SubmitResponse))
      (empty : Bool)
      → is_empty t ≡ empty
      → Names id (submit_with config socket id t submit empty).1
        × AreFull (submit_with config socket id t submit empty).0
  unfolding submit_with Names
  submit_with-Names id t none empty e = (refl, tt)
  submit_with-Names id t (some submit) true e = (refl, tt)
  submit_with-Names id t (some submit) false e = submitted-Names id t (submit t) e

  handle_payload-Names :
      (s : State) (node : Node) (id : ℕ) (payload : Payload)
      → Names id (handle_payload config socket s node id payload).1
        × AreFull (handle_payload config socket s node id payload).0
  unfolding handle_payload Names
  handle_payload-Names s node id version_payload = (refl, tt)
  handle_payload-Names s node id status_payload = (refl, tt)
  handle_payload-Names s node id (submit_payload t) =
      submit_with-Names id t socket.submit (is_empty t) refl

  handle_parsed-Names :
      (s : State) (node : Node) (request : Option Request)
      → NamesRequest request (handle_parsed config socket s node request).1
        × AreFull (handle_parsed config socket s node request).0
  unfolding handle_parsed NamesRequest
  handle_parsed-Names s node none = (refl, tt)
  handle_parsed-Names s node (some request) =
      handle_payload-Names s node request.request_id request.payload

  -- A web socket gets one answer for each text message, in their order: each names the id of its
  -- request, but for those that cannot be parsed and for a submission that failed, and no empty
  -- transaction is submitted.
  pub connect-AllAnswered :
      (incoming : List (Incoming config socket))
      → AllAnswered incoming (connect config socket incoming).1
        × AreFull (connect config socket incoming).0
  unfolding connect handle_request AllAnswered
  connect-AllAnswered [] = (tt, tt)
  connect-AllAnswered (receive_failed ∷ incoming) = connect-AllAnswered incoming
  connect-AllAnswered (other_message ∷ incoming) = connect-AllAnswered incoming
  connect-AllAnswered (text_message s node message ∷ incoming) =
      let (named, full) = handle_parsed-Names s node (socket.parse_request message) in
      let (answered, all_full) = connect-AllAnswered incoming in
      ((named, answered), All-append _ _ _ full all_full)
