-- ===== src/Subscriptions/Tests.antt =====
-- The loop at three headers, the first of which changes the authorities, and a justification for
-- the third.
use mathlib.Core.List.{Memᴰ}
use smallgod.Prelude.{
  ℕ, ◌+◌, ◌≡◌, refl, ◌⊎◌, true, none, some, List, [], ◌∷◌, ℕ_discrete, arith, find_swap_remove,
}
use smallgod.Chain.{ValidatorSet, Justification}
use smallgod.Chain.Sample.{SampleHeader, sample}
use smallgod.Finality.{Vote}
use smallgod.Finality
use smallgod.Utils.{filter_auth_set_changes}
use smallgod.ClientState.{State, set_block}
use smallgod.Subscriptions.{
  Subscription, SubscriptionLoop, Rpc, header, verify_and_output_block_headers, methods,
}
use smallgod.Subscriptions.Kept.{active}
use smallgod.Subscriptions.Batches.{Batches, verify_and_output_block_headers-Batches}
use smallgod.Subscriptions.Rotation.{
  IsPaired, headers_of, valset_after, handle_all, handle_all-IsPaired,
}

program : Unit {0}
unfolding Finality.methods methods ℕ_discrete filter_auth_set_changes set_block handle_all
    find_swap_remove
program = tt

abbrev rpc : Rpc sample
rpc = record {
  get_header_by_block_number = λ n. some (record { number = n; parent = n + 99; authorities = [] });
  accepts = λ sent h. true;
  stores = λ stored ch. true;
}

abbrev block : ℕ → List ℕ → SampleHeader
block n authorities = record { number = n; parent = n + 99; authorities = authorities }

abbrev vote : ℕ → Vote sample
vote signer = record {
  precommit = record { target_hash = 106; target_number = 6 };
  signature = (signer, 13);
  id = signer;
}

abbrev final : Justification sample
final = record {
  round = 5;
  commit = record { target_hash = 106; target_number = 6; precommits = vote 3 ∷ vote 4 ∷ [] };
  votes_ancestries = [];
}

abbrev state : ℕ → State
state latest = record {
  synced = none;
  latest = latest;
  header_verified = none;
  confidence_achieved = none;
  data_verified = none;
  sync_latest = none;
  sync_header_verified = none;
  sync_confidence_achieved = none;
  sync_data_verified = none;
  finality_synced = true;
}

abbrev first : ValidatorSet ℕ
first = record { set_id = 12; validator_set = 1 ∷ 2 ∷ [] }

abbrev next : ValidatorSet ℕ
next = record { set_id = 13; validator_set = 3 ∷ 4 ∷ [] }

-- Block 3 is finalized, and blocks 4 and 6 are announced; block 5 is not.
abbrev start : SubscriptionLoop sample
start = record {
  state = state 3;
  justifications = [];
  unverified_headers = [];
  current_valset = first;
  next_valset = none;
  last_finalized_block_header = some (block 3 []);
  sent = [];
  stored = [];
}

abbrev waiting : SubscriptionLoop sample
waiting = record start {
  state = state 6;
  unverified_headers = (block 4 (3 ∷ 4 ∷ []), first) ∷ (block 6 [], next) ∷ [];
  current_valset = next;
}

abbrev messages : List (Subscription sample)
messages = header (block 4 (3 ∷ 4 ∷ [])) ∷ header (block 6 []) ∷ []

reached : handle_all sample rpc messages start ≡ some waiting
unfolding program
reached = refl

abbrev ready : SubscriptionLoop sample
ready = record waiting { justifications = final ∷ [] }

abbrev end : SubscriptionLoop sample
end = record waiting {
  state = record (state 6) { header_verified = some (record { first = 6; last = 6 }) };
  unverified_headers = [];
  last_finalized_block_header = some (block 6 []);
  sent = block 4 (3 ∷ 4 ∷ []) ∷ block 5 [] ∷ block 6 [] ∷ [];
  stored = record { number = 6; set_id = 13; validator_set = 3 ∷ 4 ∷ [] } ∷ [];
}

sends : verify_and_output_block_headers sample rpc ready ≡ some end
unfolding program
sends = refl

verify_and_output_block_headers-Batches_example :
    (hs : List SampleHeader) × Batches sample waiting.unverified_headers
      (some (block 3 []))
      hs
      (some (block 6 []))
    × (end.sent ≡ hs)
verify_and_output_block_headers-Batches_example =
    verify_and_output_block_headers-Batches sample rpc ready end (λ n h e. ground arith) sends

handle_all-IsPaired_example :
    (active sample waiting ≡ valset_after sample first (headers_of sample messages))
    × ((p : SampleHeader × ValidatorSet ℕ)
        → Memᴰ p waiting.unverified_headers
        → Memᴰ p [] ⊎ IsPaired sample first (headers_of sample messages) p)
handle_all-IsPaired_example = handle_all-IsPaired sample rpc messages start waiting reached
