-- ===== src/Api/Messages.antt =====
-- src/api/v2/types.rs: the messages that are published, the subscriptions of the web socket clients,
-- and what is sent to whom.
use smallgod.Prelude.{
  Bool, true, false, not, ◌&&◌, Option, none, some, List, [], ◌∷◌, map, any, if◌then◌else◌, Result,
  ok, err, ℕ,
}
use smallgod.Prelude.Maps.{HashMap, get, insert, remove}
use smallgod.Prelude.Text.{Bytes}
use smallgod.RpcClient.{bytes_discrete}

pub data Topic : Type 0 where
  header_verified confidence_achieved data_verified : Topic

pub data DataField : Type 0 where
  data_field extrinsic_field : DataField

unfoldable pub is_topic : Topic → Topic → Bool
is_topic header_verified header_verified = true
is_topic confidence_achieved confidence_achieved = true
is_topic data_verified data_verified = true
is_topic _ _ = false

unfoldable pub is_field : DataField → DataField → Bool
is_field data_field data_field = true
is_field extrinsic_field extrinsic_field = true
is_field _ _ = false

-- `contains` of a set of topics, and of fields
unfoldable pub has_topic : Topic → List Topic → Bool
unfolding is_topic
has_topic topic topics = any (is_topic topic) topics

unfoldable pub has_field : DataField → List DataField → Bool
unfolding is_field
has_field field fields = any (is_field field) fields

pub record Subscription : Type 0 where
  pub topics : List Topic
  pub data_fields : List DataField

-- `DataTransaction`, whose `data` is the application's
pub record DataTransaction : Type 0 where
  pub app_data : Option Bytes
  pub extrinsic : Option Bytes

abbrev pub without_extrinsic : DataTransaction → DataTransaction
without_extrinsic t = record t { extrinsic = none }

abbrev pub without_data : DataTransaction → DataTransaction
without_data t = record t { app_data = none }

unfoldable pub filter_fields : List DataTransaction → List DataField → List DataTransaction
unfolding has_field
filter_fields transactions fields =
    let kept =
      if not (has_field extrinsic_field fields)
      then map without_extrinsic transactions
      else transactions in
    if not (has_field data_field fields) && has_field extrinsic_field fields
    then map without_data kept
    else kept

-- `HeaderMessage` and `ConfidenceMessage` are sent as they are.
module _ (Header Confidence : Type 0) where
  pub data PublishMessage : Type 0 where
    header_message : ℕ → Header → PublishMessage
    confidence_message : ℕ → Option Confidence → PublishMessage
    data_message : ℕ → List DataTransaction → PublishMessage

  unfoldable pub apply_filter : PublishMessage → List DataField → PublishMessage
  unfolding filter_fields
  apply_filter (header_message n header) fields = header_message n header
  apply_filter (confidence_message n confidence) fields = confidence_message n confidence
  apply_filter (data_message n transactions) fields =
      data_message n (filter_fields transactions fields)

-- `TryFrom<Vec<u8>> for DataTransaction`, with the decoding of an extrinsic as a parameter
module _ (decode_app_data : Bytes → Option (Option Bytes)) where
  pub data_transaction : Bytes → Option DataTransaction
  data_transaction value = elim (decode_app_data value) [
    | none ↦ none
    | some found ↦ some (record { app_data = found; extrinsic = some value })
  ]

  -- `collect` of the results: the first error
  pub data_transactions : List Bytes → Option (List DataTransaction)
  unfolding data_transaction
  data_transactions [] = some []
  data_transactions (value ∷ values) = elim (data_transaction value) [
    | none ↦ none
    | some t ↦ elim (data_transactions values) [ none ↦ none | some ts ↦ some (t ∷ ts) ]
  ]

-- The clients, by the id of their subscription. A sender is the channel to a web socket.
module _ (Sender : Type 0) where
  pub record WsClient : Type 0 where
    pub subscription : Subscription
    pub sender : Option Sender

  abbrev pub WsClients : Type 0
  WsClients = HashMap Bytes WsClient

  pub data PublishError : Type 0 where
    not_subscribed not_serialized not_sent : PublishError

  unfoldable pub is_subscribed : WsClient → Topic → Bool
  unfolding has_topic
  is_subscribed client topic = has_topic topic client.subscription.topics

  unfoldable pub subscribe : Bytes → Subscription → WsClients → WsClients
  subscribe id subscription clients =
      insert bytes_discrete id (record { subscription = subscription; sender = none }) clients

  unfoldable has_subscription : Bytes → WsClients → Bool
  has_subscription id clients = elim (get bytes_discrete id clients) [
    | none ↦ false
    | some _ ↦ true
  ]

  -- `set_sender`: the entry of the client is written over.
  unfoldable pub set_found :
      Bytes → Sender → Option WsClient → WsClients → Result PublishError (Unit {0}) × WsClients
  set_found id sender none clients = (err not_subscribed, clients)
  set_found id sender (some client) clients =
      (ok tt, insert bytes_discrete id (record client { sender = some sender }) clients)

  unfoldable pub set_sender :
      Bytes → Sender → WsClients → Result PublishError (Unit {0}) × WsClients
  unfolding set_found
  set_sender id sender clients = set_found id sender (get bytes_discrete id clients) clients

  module _ (Header Confidence : Type 0) where
    -- What `publish` sends: the filtered message, for each subscribed client that has a sender.
    abbrev pub Sent : Type 0
    Sent = Sender × PublishMessage Header Confidence

    unfoldable pub filtered_to :
        Bool → Option Sender → List DataField → PublishMessage Header Confidence → Option Sent
    unfolding apply_filter
    filtered_to false sender fields message = none
    filtered_to true none fields message = none
    filtered_to true (some sender) fields message =
        some (sender, apply_filter Header Confidence message fields)

    unfoldable pub push_some : Option Sent → List Sent → List Sent
    push_some none rest = rest
    push_some (some sent) rest = sent ∷ rest

    unfoldable pub addressed : Topic → PublishMessage Header Confidence → WsClients → List Sent
    unfolding is_subscribed filtered_to push_some
    addressed topic message [] = []
    addressed topic message ((id, client) ∷ clients) =
        push_some
          (filtered_to (is_subscribed client topic) client.sender client.subscription.data_fields
            message)
          (addressed topic message clients)

    -- The results of `publish`: the serialization to JSON, and whether the channel is open, are
    -- parameters.
    module _ (to_text : PublishMessage Header Confidence → Option Bytes)
        (is_open : Sender → Bool) where
      unfoldable send_message : Sent → Result PublishError (Sender × Bytes)
      send_message (sender, message) = elim (to_text message) [
        | none ↦ err not_serialized
        | some text ↦ if is_open sender then ok (sender, text) else err not_sent
      ]

      unfoldable publish :
          Topic
          → PublishMessage Header Confidence
          → WsClients
          → List (Result PublishError (Sender × Bytes))
      unfolding send_message addressed
      publish topic message clients = map send_message (addressed topic message clients)

-- What runs at concrete inputs unfolds.
unfoldable pub message_methods : Unit {0}
unfolding is_topic is_field has_topic has_field filter_fields apply_filter data_transaction
    data_transactions is_subscribed subscribe has_subscription set_found set_sender filtered_to
    push_some addressed send_message publish get insert remove
message_methods = tt
