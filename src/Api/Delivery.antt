-- ===== src/Api/Delivery.antt =====
-- Who is sent a published message, and with which fields.
use mathlib.Core.List.{Memᴰ}
use smallgod.Prelude.{
  ◌≡◌, refl, sym, ap, subst, Bool, true, false, Option, none, some, List, [], ◌∷◌, ◌⊎◌, ◌↔◌, inl,
  inr,
}
use smallgod.Prelude.Text.{Bytes}
use smallgod.Api.Messages.{
  Topic, PublishMessage, apply_filter, WsClient, WsClients, is_subscribed, has_topic, filtered_to,
  push_some, addressed, DataField,
}

module _ (Sender Header Confidence : Type 0) where
  abbrev Message : Type 0
  Message = PublishMessage Header Confidence

  -- A client is sent the message: it is subscribed to the topic and has a sender, and the message has
  -- the fields of its subscription only.
  pub record IsAddressed (topic : Topic) (message : Message) (client : WsClient Sender)
      (sent : Sender × Message) : Type 0 where
    pub is_topic_of : has_topic topic client.subscription.topics ≡ true
    pub sender_of : client.sender ≡ some sent.0
    pub filtered : sent.1 ≡ apply_filter Header Confidence message client.subscription.data_fields

  filtered_to-some :
      (b : Bool) (sender : Option Sender) (fields : List DataField) (message : Message)
      {sent : Sender × Message}
      → filtered_to Sender Header Confidence b sender fields message ≡ some sent
      → (b ≡ true)
        × (sender ≡ some sent.0)
        × (sent.1 ≡ apply_filter Header Confidence message fields)
  unfolding filtered_to
  filtered_to-some false sender fields message e = cc
  filtered_to-some true none fields message e = cc
  filtered_to-some true (some s) fields message {sent} e =
      let same : (s, apply_filter Header Confidence message fields) ≡ sent = cc in
      (refl, ap (λ x. some x.0) same, ap (λ x. x.1) (sym same))

  mem-push_some :
      (o : Option (Sender × Message)) (rest : List (Sender × Message)) (sent : Sender × Message)
      → Memᴰ sent (push_some Sender Header Confidence o rest)
      → (o ≡ some sent) ⊎ Memᴰ sent rest
  unfolding push_some
  mem-push_some none rest sent m = inr m
  mem-push_some (some x) rest sent (Memᴰ.head here) = inl (ap some (sym here))
  mem-push_some (some x) rest sent (Memᴰ.tail later) = inr later

  addressed-IsAddressed :
      (topic : Topic) (message : Message) (clients : WsClients Sender) (sent : Sender × Message)
      → Memᴰ sent (addressed Sender Header Confidence topic message clients)
      → (entry : Bytes × WsClient Sender) × Memᴰ entry clients
        × IsAddressed topic message entry.1 sent
  unfolding addressed is_subscribed
  addressed-IsAddressed topic message [] sent m = elim m [ ]
  addressed-IsAddressed topic message ((id, client) ∷ clients) sent m =
      elim (mem-push_some _ _ sent m) [
        | inl now ↦
            let (subscribed, sender, filtered) = filtered_to-some _ _ _ message now in
            (
              (id, client),
              Memᴰ.head refl,
              record { is_topic_of = subscribed; sender_of = sender; filtered = filtered },
            )
        | inr later ↦
            let (entry, found, addressed_to) =
              addressed-IsAddressed topic message clients sent later in
            (entry, Memᴰ.tail found, addressed_to)
      ]

  push_some-mem :
      (o : Option (Sender × Message)) (rest : List (Sender × Message)) (sent : Sender × Message)
      → (o ≡ some sent) ⊎ Memᴰ sent rest
      → Memᴰ sent (push_some Sender Header Confidence o rest)
  unfolding push_some
  push_some-mem none rest sent (inl e) = cc
  push_some-mem none rest sent (inr m) = m
  push_some-mem (some x) rest sent (inl e) = Memᴰ.head cc
  push_some-mem (some x) rest sent (inr m) = Memᴰ.tail m

  filtered_to-IsAddressed :
      (topic : Topic) (message : Message) (client : WsClient Sender) (sent : Sender × Message)
      → IsAddressed topic message client sent
      → filtered_to Sender Header Confidence
          (is_subscribed Sender client topic)
          client.sender
          client.subscription.data_fields
          message
        ≡ some sent
  unfolding filtered_to is_subscribed
  filtered_to-IsAddressed topic message client sent h =
      let whole : (sent.0, apply_filter Header Confidence message client.subscription.data_fields)
          ≡ sent =
        ap (λ x. (sent.0, x)) (sym h.filtered) in
      subst
        (λ b.
          filtered_to Sender Header Confidence b client.sender client.subscription.data_fields
            message
          ≡ some sent)
        (sym h.is_topic_of)
        (subst
          (λ o.
            filtered_to Sender Header Confidence true o client.subscription.data_fields message
            ≡ some sent)
          (sym h.sender_of) (ap some whole))

  -- The other way: the message is sent to every client that it is meant for.
  IsAddressed-addressed :
      (topic : Topic) (message : Message) (clients : WsClients Sender) (sent : Sender × Message)
      (entry : Bytes × WsClient Sender)
      → Memᴰ entry clients
      → IsAddressed topic message entry.1 sent
      → Memᴰ sent (addressed Sender Header Confidence topic message clients)
  unfolding addressed
  IsAddressed-addressed topic message [] sent entry m h = elim m [ ]
  IsAddressed-addressed topic message (c ∷ clients) sent entry (Memᴰ.head here) h =
      push_some-mem _ _ sent (
        inl (
          filtered_to-IsAddressed topic message c.1 sent
            (subst (λ x. IsAddressed topic message x.1 sent) here h)))
  IsAddressed-addressed topic message (c ∷ clients) sent entry (Memᴰ.tail later) h =
      push_some-mem _ _ sent (inr (IsAddressed-addressed topic message clients sent entry later h))

  -- `publish` sends a message to the senders of exactly the clients that are subscribed to its topic,
  -- with the fields that each has asked for.
  pub addressed-iff-IsAddressed :
      (topic : Topic) (message : Message) (clients : WsClients Sender) (sent : Sender × Message)
      → Memᴰ sent (addressed Sender Header Confidence topic message clients) ↔ (
          (entry : Bytes × WsClient Sender) × Memᴰ entry clients
          × IsAddressed topic message entry.1 sent)
  addressed-iff-IsAddressed topic message clients sent = (
    addressed-IsAddressed topic message clients sent,
    λ h.
        let (entry, found, addressed_to) = h in
        IsAddressed-addressed topic message clients sent entry found addressed_to,
  )
