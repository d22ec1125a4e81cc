-- ===== src/Api/Subscribers.antt =====
-- The clients behind any subscriptions and connections of web sockets: the handler `subscriptions` of
-- src/api/v2/handlers.rs, and `set_sender` of `connect` in src/api/v2/ws.rs.
use mathlib.Core.List.{Memᴰ}
use smallgod.Prelude.{◌≡◌, refl, sym, subst, Option, none, some, List, [], ◌∷◌, inl, inr}
use smallgod.Prelude.Maps.{get, mem-insert, mem-get}
use smallgod.Prelude.Text.{Bytes}
use smallgod.RpcClient.{bytes_discrete}
use smallgod.Api.Messages.{
  Topic, Subscription, PublishMessage, WsClient, WsClients, subscribe, set_found, set_sender,
  addressed,
}
use smallgod.Api.Fields.{IsFiltered, apply_filter-IsFiltered, has_topic-Mem}
use smallgod.Api.Delivery.{addressed-iff-IsAddressed}

module _ (Sender : Type 0) where
  pub data Operation : Type 0 where
    subscribing : Bytes → Subscription → Operation
    attaching : Bytes → Sender → Operation

  operate : Operation → WsClients Sender → WsClients Sender
  operate (subscribing id subscription) clients = subscribe Sender id subscription clients
  operate (attaching id sender) clients = (set_sender Sender id sender clients).1

  pub operate_all : List Operation → WsClients Sender → WsClients Sender
  unfolding operate
  operate_all [] clients = clients
  operate_all (op ∷ ops) clients = operate_all ops (operate op clients)

  -- The entry of a client was made by these operations.
  record IsMadeBy (ops : List Operation) (entry : Bytes × WsClient Sender) : Type 0 where
    made : Memᴰ (subscribing entry.0 entry.1.subscription) ops
    attached : (s : Sender) → entry.1.sender ≡ some s → Memᴰ (attaching entry.0 s) ops

  abbrev AllMadeBy : List Operation → WsClients Sender → Type 0
  AllMadeBy ops clients =
      (entry : Bytes × WsClient Sender) → Memᴰ entry clients → IsMadeBy ops entry

  set_found-IsMadeBy :
      (ops : List Operation) (id : Bytes) (s : Sender) (found : Option (WsClient Sender))
      (clients : WsClients Sender)
      → Memᴰ (attaching id s) ops
      → ((client : WsClient Sender) → found ≡ some client → Memᴰ (id, client) clients)
      → AllMadeBy ops clients
      → AllMadeBy ops (set_found Sender id s found clients).1
  unfolding set_found
  set_found-IsMadeBy ops id s none clients given among h entry m = h entry m
  set_found-IsMadeBy ops id s (some client) clients given among h entry m =
      elim (mem-insert bytes_discrete id (record client { sender = some s }) entry clients m) [
        | inl new ↦ subst (IsMadeBy ops) (sym new) (record {
          made = (h (id, client) (among client refl)).made;
          attached =
              λ t e. let same : s ≡ t = cc in subst (λ x. Memᴰ (attaching id x) ops) same given;
        })
        | inr old ↦ h entry old
      ]

  operate-IsMadeBy :
      (ops : List Operation) (op : Operation) (clients : WsClients Sender)
      → Memᴰ op ops
      → AllMadeBy ops clients
      → AllMadeBy ops (operate op clients)
  unfolding operate subscribe set_sender
  operate-IsMadeBy ops (subscribing id subscription) clients given h entry m =
      elim (mem-insert bytes_discrete id (record { subscription = subscription; sender = none })
        entry clients m) [
          | inl new ↦
              subst (IsMadeBy ops) (sym new) (record { made = given; attached = λ t e. absurd cc })
          | inr old ↦ h entry old
        ]
  operate-IsMadeBy ops (attaching id s) clients given h entry m =
      set_found-IsMadeBy ops id s (get bytes_discrete id clients) clients given
        (λ client e. mem-get bytes_discrete id client clients e) h entry m

  operate_all-IsMadeBy :
      (ops rest : List Operation) (clients : WsClients Sender)
      → ((op : Operation) → Memᴰ op rest → Memᴰ op ops)
      → AllMadeBy ops clients
      → AllMadeBy ops (operate_all rest clients)
  unfolding operate_all
  operate_all-IsMadeBy ops [] clients given h = h
  operate_all-IsMadeBy ops (op ∷ rest) clients given h =
      operate_all-IsMadeBy ops rest (operate op clients) (λ o m. given o (Memᴰ.tail m))
        (operate-IsMadeBy ops op clients (given op (Memᴰ.head refl)) h)

  module _ (Header Confidence : Type 0) where
    -- Behind any subscriptions and connections, a published message reaches a web socket only if the
    -- web socket was connected with the id of a subscription that has the topic. A header and a
    -- confidence are then sent as they are. Of data the same transactions are sent in the same order:
    -- each has its extrinsic if the subscription asks for extrinsics, and no extrinsic otherwise; it
    -- has its data if the subscription asks for data, or does not ask for extrinsics, and no data
    -- otherwise.
    pub addressed-IsSubscribed :
        (ops : List Operation) (topic : Topic) (message : PublishMessage Header Confidence)
        (sent : Sender × PublishMessage Header Confidence)
        → Memᴰ sent (addressed Sender Header Confidence topic message (operate_all ops []))
        → (id : Bytes) × (subscription : Subscription) × Memᴰ (subscribing id subscription) ops
          × Memᴰ (attaching id sent.0) ops
          × Memᴰ topic subscription.topics
          × IsFiltered Header Confidence subscription.data_fields message sent.1
    addressed-IsSubscribed ops topic message sent m =
        let (entry, found, reached) =
          (addressed-iff-IsAddressed Sender Header Confidence topic message (operate_all ops [])
              sent).0
            m in
        let by =
          operate_all-IsMadeBy ops ops [] (λ op o. o) (λ e none_there. elim none_there [ ]) entry
            found in
        (
          entry.0,
          entry.1.subscription,
          by.made,
          by.attached sent.0 reached.sender_of,
          has_topic-Mem topic entry.1.subscription.topics reached.is_topic_of,
          subst (IsFiltered Header Confidence entry.1.subscription.data_fields message)
              (sym reached.filtered)
              (apply_filter-IsFiltered Header Confidence entry.1.subscription.data_fields message),
        )

-- What runs at concrete inputs unfolds.
unfoldable pub subscriber_methods : Unit {0}
unfolding operate operate_all
subscriber_methods = tt
