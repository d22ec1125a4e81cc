-- ===== src/Subscriptions.antt =====
-- src/network/rpc/subscriptions.rs: the loop that pairs the headers and the justifications of a
-- node's subscriptions, and sends the headers that are final.
pub mod Skipped
pub mod Batches
pub mod Kept
pub mod Rotation
mod Tests
use smallgod.Prelude.{
  ℕ, zero, suc, ◌+◌, ◌-◌, ◌%◌, ◌^◌, Bool, true, false, ◌||◌, ite, Option, none, some, List, [], ◌∷◌,
  ◌++◌, map, ◌==◌, if◌then◌else◌, ok, err, panic, find_swap_remove,
}
use smallgod.Chain.{ValidatorSet, Primitives, Justification}
use smallgod.Finality.{check_finality}
use smallgod.Utils.{filter_auth_set_changes}
use smallgod.ClientState.{State, set_block}
use smallgod.SyncFinality.{FinalitySyncCheckpoint, u32_mod}

module _ (c : Primitives) where
  -- `Subscription`
  pub data Subscription : Type 0 where
    header : c.Header → Subscription
    justification : Justification c → Subscription

  -- `SubscriptionLoop` with its `BlockData`, the headers sent and the checkpoints stored so far.
  -- The top of the justifications, the last one of the vector, stands first. The arrival times of
  -- the headers, which are only passed on, are left out.
  pub record SubscriptionLoop : Type 0 where
    pub state : State
    pub justifications : List (Justification c)
    pub unverified_headers : List (c.Header × ValidatorSet c.Public)
    pub current_valset : ValidatorSet c.Public
    pub next_valset : Option (ValidatorSet c.Public)
    pub last_finalized_block_header : Option c.Header
    pub sent : List c.Header
    pub stored : List (FinalitySyncCheckpoint c.Public)

  -- The node, the channel and the database. A call that fails is `none`, or `false`, and the
  -- `unwrap` on it panics.
  pub record Rpc : Type 0 where
    pub get_header_by_block_number : ℕ → Option c.Header
    pub accepts : List c.Header → c.Header → Bool
    pub stores : List (FinalitySyncCheckpoint c.Public) → FinalitySyncCheckpoint c.Public → Bool

  -- The loop after the whole call, and `none` is a panic, which ends the task.
  abbrev pub Next : Type 0
  Next = Option SubscriptionLoop

  -- The next validator set becomes the current one.
  pub rotate : SubscriptionLoop → SubscriptionLoop
  rotate s = elim s.next_valset [
    | none ↦ s
    | some v ↦ record s { current_valset = v; next_valset = none }
  ]

  -- `ValidatorSet` of a change of the authorities in a header.
  pub changed_valset : ValidatorSet c.Public → List (c.Public × ℕ) → ValidatorSet c.Public
  changed_valset current auths = record {
    set_id = (current.set_id + 1) % 2 ^ 64;
    validator_set = map (λ a. a.0) auths;
  }

  -- A new header, before the headers are checked.
  pub push_header : c.Header → SubscriptionLoop → Next
  unfolding rotate changed_valset
  push_header h s =
      let s' = rotate (record s { state = record s.state { latest = c.number h } }) in
      let s'' = record s' {
        unverified_headers = s'.unverified_headers ++ (h, s'.current_valset) ∷ [];
      } in
      elim (filter_auth_set_changes c h) [
        | [] ↦ some s''
        | auths ∷ more ↦ elim more [
          | [] ↦ some (record s'' { next_valset = some (changed_valset s''.current_valset auths) })
          | _ ∷ _ ↦ none
        ]
      ]

  module _ (rpc : Rpc) where
    -- `event_sender.send(…).unwrap()`
    pub send : c.Header → SubscriptionLoop → Next
    send h s = if rpc.accepts s.sent h then some (record s { sent = s.sent ++ h ∷ [] }) else none

    -- A skipped block: its header from the unverified ones, or from the node.
    pub send_skipped : ℕ → SubscriptionLoop → Next
    unfolding send
    send_skipped n s = elim (find_swap_remove (λ p. c.number p.0 == n) s.unverified_headers) [
      | some ((h, _), rest) ↦ send h (record s { unverified_headers = rest })
      | none ↦ elim (rpc.get_header_by_block_number n) [ none ↦ none | some h ↦ send h s ]
    ]

    -- The blocks of a range, by its size and its first number.
    pub send_range : ℕ → ℕ → SubscriptionLoop → Next
    send_range zero n s = some s
    send_range (suc k) n s = elim (send_skipped n s) [
      | none ↦ none
      | some s' ↦ send_range k (n + 1) s'
    ]

    -- All the skipped blocks between the last finalized header and a header.
    pub send_all_skipped : c.Header → SubscriptionLoop → Next
    send_all_skipped h s = elim s.last_finalized_block_header [
      | none ↦ some s
      | some last_header ↦
          let first = (c.number last_header + 1) % u32_mod in
          send_range (c.number h - first) first s
    ]

    pub store_checkpoint : Bool → c.Header → SubscriptionLoop → Next
    store_checkpoint finality_synced h s = elim finality_synced [
      | false ↦ some s
      | true ↦
          let ch : FinalitySyncCheckpoint c.Public = record {
            number = c.number h;
            set_id = s.current_valset.set_id;
            validator_set = s.current_valset.validator_set;
          } in
          if rpc.stores s.stored ch then some (record s { stored = s.stored ++ ch ∷ [] }) else none
    ]

    -- The body of the loop for a header whose hash is a justification's target.
    pub output_header :
        c.Header → ValidatorSet c.Public → Justification c → Bool → SubscriptionLoop → Next
    unfolding store_checkpoint send_all_skipped send
    output_header h valset j finality_synced s = elim (check_finality c valset j) [
      | err _ ↦ none
      | panic ↦ none
      | ok _ ↦ elim (store_checkpoint finality_synced h s) [
        | none ↦ none
        | some s1 ↦ elim (send_all_skipped h s1) [
          | none ↦ none
          | some s2 ↦ send h (record s2 {
            last_finalized_block_header = some h;
            state = record s2.state {
              header_verified = set_block (c.number h) s2.state.header_verified;
            };
          })
        ]
      ]
    ]

    -- The loop over the justifications, which ends at the first without a header.
    pub output_headers : List (Justification c) → Bool → SubscriptionLoop → Next
    unfolding output_header
    output_headers [] synced s = some (record s { justifications = [] })
    output_headers (j ∷ js) synced s =
        elim (find_swap_remove
          (λ p. ite (c.H256_discrete j.commit.target_hash (c.header_hash p.0)) true false)
          s.unverified_headers) [
            | none ↦ some (record s { justifications = j ∷ js })
            | some ((h, valset), rest) ↦
                let synced' = synced || s.state.finality_synced in
                elim (output_header h valset j synced' (record s { unverified_headers = rest })) [
                  | none ↦ none
                  | some s' ↦ output_headers js synced' s'
                ]
          ]

    pub verify_and_output_block_headers : SubscriptionLoop → Next
    unfolding output_headers
    verify_and_output_block_headers s = output_headers s.justifications false s

    pub handle_new_subscription : Subscription → SubscriptionLoop → Next
    unfolding verify_and_output_block_headers push_header
    handle_new_subscription (header h) s = elim (push_header h s) [
      | none ↦ none
      | some s' ↦ verify_and_output_block_headers s'
    ]
    handle_new_subscription (justification j) s =
        verify_and_output_block_headers (record s { justifications = j ∷ s.justifications })

-- The functions of this file, for a run of the loop.
unfoldable pub methods : Unit {0}
unfolding rotate changed_valset push_header send send_skipped send_range send_all_skipped
    store_checkpoint output_header output_headers verify_and_output_block_headers
    handle_new_subscription
methods = tt
